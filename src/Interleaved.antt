-- ===== src/Interleaved.antt =====
-- The service with requests that interleave. A request runs in phases, each of them one call of
-- Postgres, of Redis, or one transaction, together with the code up to the next such call; between
-- two phases of a request any others run. A transaction is one phase: `createBooking`'s rows become
-- visible at its COMMIT, and the unique index and the row locks (`FOR UPDATE`, `UPDATE`) keep the
-- transactions that touch the same rows one after the other.
pub mod Change
pub mod Quiet
pub mod Phases
pub mod Alone
pub mod Safety
pub mod Tests
use ticket_booking.Base.{
  ℕ, String, ◌≡◌, Option, List, [], ◌∷◌, ◌++◌, map, Exit, next, leave, ◌>>=◌, ◌>>◌, pure,
}
use ticket_booking.Db.{Event}
use ticket_booking.Redis.{Store}
use ticket_booking.Holds.{hold_key}
use ticket_booking.World.{World, App, Env, Uuids, Attempt, Response, booked, success}
use ticket_booking.Booking.{Request, Verdict, gated, sale_gate, hold, hold_cap, book_tx, finish}
use ticket_booking.Payment.{pay_commit, pay_settle}
use ticket_booking.Admin.Tables.{NewEvent, Patch, Draws}
use ticket_booking.Admin.Handlers.{create_admin_event, patch_admin_event}
use ticket_booking.Cancel.{cancel_commit, cancel_settle, expire_overdue_orders}

-- A request between two of its phases.
pub data Job : Type 0 where
  -- has read the event
  gates : Env → String → Request → Event → Job
  -- holds its keys
  caps : Env → String → Request → Job
  -- is within the quota
  books : Env → String → Request → Job
  -- the payment is committed
  settles : Env → String → String → String → ℕ → Job
  -- the cancellation is committed
  drops : Env → String → String → List String → Job

pub data Next : Type 0 where
  goes_on : Job → Next
  responds : Response → Next

module _ (u : Uuids) (app : App) where
  -- A phase of a booking leaves with its logged answer, or goes on.
  abbrev pub then_ :
      {A : Type 0} → Env → String → Request → (A → Next) → Exit Verdict A × World → Next × World
  then_ env user b k (next a, w) = (k a, w)
  then_ env user b k (leave v, w) =
      let (resp, w') = finish u app env user b (leave v, w) in (responds resp, w')

  abbrev pub keys : Request → List String
  keys b = map (hold_key b.event_id) b.seat_ids

  abbrev pub gate_phase : Env → String → Event → Request → World → Exit Verdict (Unit {0}) × World
  gate_phase env user e b = sale_gate u app env user e b >> hold u app env user (keys b)

  abbrev pub book_phase : Env → String → Request → World → Exit Verdict Verdict × World
  book_phase env user b = book_tx u app env user (keys b) b >>= λ at.
      pure (success, record { status = 201; body = booked env.fresh at })

  abbrev pub answered : Response × World → Next × World
  answered (resp, w) = (responds resp, w)

  -- The next phase of a request.
  unfoldable pub advance : Job → World → Next × World
  advance (gates env user b e) w =
      then_ env user b (λ _. goes_on (caps env user b)) (gate_phase env user e b w)
  advance (caps env user b) w =
      then_ env user b (λ _. goes_on (books env user b)) (hold_cap u app env user (keys b) b w)
  advance (books env user b) w = answered (finish u app env user b (book_phase env user b w))
  advance (settles env user order key amount) w =
      answered (pay_settle u env user order key amount w)
  advance (drops env user order ks) w = answered (cancel_settle u env user order ks w)

  -- The first phase of a request.
  abbrev pub started : {A : Type 0} → (A → Job) → Exit Response A × World → Next × World
  started k (next a, w) = (goes_on (k a), w)
  started k (leave resp, w) = (responds resp, w)

  pub book_request : Env → String → Option Request → World → Next × World
  book_request env user body w =
      started (λ be. gates env user be.0 be.1) (gated u app env user body w)

  pub pay_request : Env → String → String → String → World → Next × World
  pay_request env user order key w =
      started (settles env user order key) (pay_commit u env user order key w)

  pub cancel_request : Env → String → String → World → Next × World
  cancel_request env user order w =
      started (drops env user order) (cancel_commit u env user order w)

-- The shared state, and the requests under way.
pub record Service : Type 0 where
  pub world : World
  pub jobs : List Job

abbrev pub keep : Next → List Job → List Job
keep (goes_on j) js = j ∷ js
keep (responds resp) js = js

abbrev pub serve : Next × World → List Job → List Job → Service
serve (n, w) before after = record { world = w; jobs = before ++ keep n after }

pub data Step (u : Uuids) (app : App) (s s' : Service) : Type 0 where
  asks_booking :
      (env : Env) (user : String) (body : Option Request)
      → s' ≡ serve (book_request u app env user body s.world) [] s.jobs
      → Step u app s s'
  asks_payment :
      (env : Env) (user order key : String)
      → s' ≡ serve (pay_request u app env user order key s.world) [] s.jobs
      → Step u app s s'
  asks_cancellation :
      (env : Env) (user order : String)
      → s' ≡ serve (cancel_request u app env user order s.world) [] s.jobs
      → Step u app s s'
  -- any request under way makes its next phase
  advances :
      (before : List Job) (j : Job) (after : List Job)
      → s.jobs ≡ before ++ (j ∷ after)
      → s' ≡ serve (advance u app j s.world) before after
      → Step u app s s'
  -- the process of a request dies
  dies :
      (before : List Job) (j : Job) (after : List Job)
      → s.jobs ≡ before ++ (j ∷ after)
      → s' ≡ record s { jobs = before ++ after }
      → Step u app s s'
  expires :
      (env : Env)
      → s' ≡ record s { world = (expire_overdue_orders env s.world).1 }
      → Step u app s s'
  creates :
      (parse_time : String → Option ℕ) (env : Env) (d : Draws) (body : Option NewEvent)
      → s' ≡ record s { world = (create_admin_event u parse_time env d body s.world).1 }
      → Step u app s s'
  patches :
      (parse_time : String → Option ℕ) (env : Env) (d : Draws) (id : String) (body : Option Patch)
      → s' ≡ record s { world = (patch_admin_event u parse_time env d id body s.world).1 }
      → Step u app s s'
  redis_changes :
      (r : Store) → s' ≡ record s { world = record s.world { redis = r } } → Step u app s s'
  log_drains :
      (rest : List Attempt)
      → s' ≡ record s { world = record s.world { attempts = rest } }
      → Step u app s s'

pub data Reach (u : Uuids) (app : App) (s : Service) : Service → Type 0 where
  here : Reach u app s s
  after : {s' s'' : Service} → Reach u app s s' → Step u app s' s'' → Reach u app s s''
