-- ===== src/Redis.antt =====
-- What the program uses of Redis: string keys with a time to live, read and written by single
-- commands and by the Lua script `holdScript` of api/handlers.go, each of them atomic. A time is in
-- milliseconds, a time to live in seconds.
pub mod Laws
pub mod Exclusion
pub mod Tests
use ticket_booking.Base.{
  ℕ, ◌+◌, ◌*◌, String, Bool, true, false, Option, none, some, List, [], ◌∷◌, ltb, ◌==◌, str_eq,
  if◌then◌else◌, any,
}

pub record Entry : Type 0 where
  pub value : String
  -- `none` for a key that stays
  pub expires : Option ℕ

abbrev pub Store : Type 0
Store = String → Option Entry

abbrev pub empty : Store
empty k = none

abbrev pub live : ℕ → Option Entry → Option String
live now none = none
live now (some e) = elim e.expires [
  | none ↦ some e.value
  | some t ↦ if ltb now t then some e.value else none
]

-- GET
unfoldable pub read : Store → ℕ → String → Option String
read r now k = live now (r k)

-- EXISTS
unfoldable pub exists : Store → ℕ → String → Bool
unfolding read
exists r now k = elim (read r now k) [ none ↦ false | some _ ↦ true ]

-- SET k v EX ttl
unfoldable pub put : String → String → ℕ → ℕ → Store → Store
put k v ttl now r j =
    if str_eq k j then some (record { value = v; expires = some (now + 1000 * ttl) }) else r j

-- Set of go-redis: a time to live that is not positive, for which 0 stands here, is none.
unfoldable pub set : String → String → ℕ → ℕ → Store → Store
unfolding put
set k v ttl now r j =
    if ttl == 0
    then if str_eq k j then some (record { value = v; expires = none }) else r j
    else put k v ttl now r j

abbrev pub one_of : List String → String → Bool
one_of ks j = any (λ k. str_eq k j) ks

-- DEL of several keys
unfoldable pub delete : List String → Store → Store
delete ks r j = if one_of ks j then none else r j

-- GETDEL
unfoldable pub get_del : Store → ℕ → String → Option String × Store
unfolding read delete
get_del r now k = (read r now k, delete (k ∷ []) r)

-- The second loop of `holdScript`.
unfoldable pub put_all : List String → String → ℕ → ℕ → Store → Store
unfolding put
put_all [] v ttl now r = r
put_all (k ∷ ks) v ttl now r = put_all ks v ttl now (put k v ttl now r)

-- `holdScript`: hold all the keys (1), or none if one of them exists (0). `none` is the script's
-- error: SET refuses EX 0, before any key is written.
unfoldable pub hold_script : List String → String → ℕ → ℕ → Store → Option (ℕ × Store)
unfolding exists put_all
hold_script ks user ttl now r =
    if any (exists r now) ks
    then some (0, r)
    else if ttl == 0
    then none
    else some (1, put_all ks user ttl now r)
