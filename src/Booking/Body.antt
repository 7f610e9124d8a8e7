-- ===== src/Booking/Body.antt =====
-- A request's body as the handler goes on with it.
use ticket_booking.Base.{
  ◌+◌, ◌≤◌, String, ◌≡◌, ◌≢◌, refl, Bool, true, false, Option, none, some, List, [], ◌∷◌, arith,
  ◌||◌, not, ◌∙◌, any, length, is_uuid, Ends, Ends-bind, Ends-pure, Ends-leave, Ends-refuse_if,
}
use ticket_booking.World.{World, Response}
use ticket_booking.Booking.{Request, insert_sorted, sort, check_body}

length-insert_sorted : (x : String) (ys : List String) → length (insert_sorted x ys) ≡ length ys + 1
unfolding insert_sorted
length-insert_sorted x [] = omega arith
length-insert_sorted x (y ∷ ys) = ground (arith, length-insert_sorted x ys)

pub length-sort : (xs : List String) → length (sort xs) ≡ length xs
unfolding sort
length-sort [] = refl
length-sort (x ∷ xs) = omega (arith, length-insert_sorted x (sort xs), length-sort xs)

any-insert_sorted :
    (p : String → Bool) (x : String) (ys : List String)
    → any p (insert_sorted x ys) ≡ (p x || any p ys)
unfolding insert_sorted
any-insert_sorted p x [] = refl
any-insert_sorted p x (y ∷ ys) = ground (arith, any-insert_sorted p x ys)

pub any-sort : (p : String → Bool) (xs : List String) → any p (sort xs) ≡ any p xs
unfolding sort
any-sort p [] = refl
any-sort p (x ∷ xs) = ground (arith, any-insert_sorted p x (sort xs), any-sort p xs)

-- A request as the handler goes on with it: well formed, its seats sorted.
pub record IsChecked (body : Option Request) (b : Request) : Type 0 where
  pub given :
      (ids : List String) × (body ≡ some (record { event_id = b.event_id; seat_ids = ids }))
      × (b.seat_ids ≡ sort ids)
  pub some_seats : 1 ≤ length b.seat_ids
  pub few_seats : length b.seat_ids ≤ 20
  pub event_is_uuid : is_uuid b.event_id ≡ true
  pub seats_are_uuids : any (λ s. not (is_uuid s)) b.seat_ids ≡ false

abbrev pub Rejected : World → Response → World → Type 0
Rejected w resp w' = (resp.status ≢ 201) × (w' ≡ w)

pub check_body-Ends :
    (body : Option Request) (w : World)
    → Ends (Rejected w) (λ b w'. IsChecked body b × (w' ≡ w)) (check_body body w)
unfolding check_body
check_body-Ends none w = Ends-leave (omega arith, refl)
check_body-Ends (some b) w =
    Ends-bind _ _ _ (Ends-refuse_if _ _ w (λ _. (omega arith, refl))) λ _ w₁ (e₁, s₁).
      Ends-bind _ _ _ (Ends-refuse_if _ _ w₁ (λ _. (omega arith, s₁))) λ _ w₂ (e₂, s₂).
        Ends-bind _ _ _ (Ends-refuse_if _ _ w₂ (λ _. (omega arith, s₂ ∙ s₁))) λ _ w₃ (e₃, s₃).
          Ends-bind _ _ _ (Ends-refuse_if _ _ w₃ (λ _. (omega arith, s₃ ∙ s₂ ∙ s₁)))
            λ _ w₄ (e₄, s₄). Ends-pure (
              record {
                given = (b.seat_ids, refl, refl);
                some_seats = ground (arith, length-sort b.seat_ids, e₂);
                few_seats = ground (arith, length-sort b.seat_ids, e₂);
                event_is_uuid = ground (arith, e₃);
                seats_are_uuids = ground (arith, any-sort (λ s. not (is_uuid s)) b.seat_ids, e₄);
              },
              s₄ ∙ s₃ ∙ s₂ ∙ s₁,
            )
