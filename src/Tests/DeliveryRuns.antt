-- ===== src/Tests/DeliveryRuns.antt =====
-- A reminder that a worker claims, and what others ask in the next minutes. New rows get the number
-- after the greatest one.
use vpn_mediator_public.Prelude.{ℕ, ◌+◌, ◌≤◌, ◌≡◌, refl, max, none, some, List, [], ◌∷◌, All, arith}
use vpn_mediator_public.Clock.{minutes}
use vpn_mediator_public.Table.{count_where}
use vpn_mediator_public.Deliveries.{
  Delivery, DeliveryKey, has_id, new_delivery, claim_delivery, claim_again, mark_accepted,
}
use vpn_mediator_public.Deliveries.Exclusive.{
  Call, claims, fails, IsAllowed, serve_calls, claim_exclusive, accepted_stays,
}

abbrev next_number : List Delivery → ℕ
next_number [] = 1
next_number (d ∷ t) = max (d.id + 1) (next_number t)

above_next : (n : ℕ) (t : List Delivery) → next_number t ≤ n → count_where (has_id n) t ≡ 0
above_next n [] h = refl
above_next n (d ∷ t) h = ground (arith, above_next n t)

next_number_is_fresh : (t : List Delivery) → count_where (has_id (next_number t)) t ≡ 0
next_number_is_fresh t = above_next (next_number t) t (omega arith)

abbrev reminder : DeliveryKey
reminder = record { subscription_id = 4; notification_kind = "expires_soon"; delivery_key = "3d" }

abbrev farewell : DeliveryKey
farewell = record { subscription_id = 4; notification_kind = "expired"; delivery_key = "0d" }

abbrev claimed_reminder : Delivery
claimed_reminder = new_delivery 1 reminder "main" (minutes 60)

-- Another notification is claimed and fails, and a second worker asks for the reminder as well.
abbrev other_calls : List Call
other_calls =
    claims farewell none "main" (minutes 62)
    ∷ fails 2 "network" (minutes 63)
    ∷ claims reminder none "mirror" (minutes 70)
    ∷ []

abbrev others_allowed : All (IsAllowed 1 (minutes 75)) other_calls
others_allowed = (refl, (refl, (refl, tt)))

-- A quarter of an hour later the reminder is given out again.
late_run :
    (claim_delivery 2 reminder none "mirror" (minutes 75) (claimed_reminder ∷ [])).1
    ≡ some (record claimed_reminder {
      attempt_count = 2;
      claimed_at = some (minutes 75);
      send_started_at = some (minutes 75);
    })
unfolding claim_delivery claim_again
late_run = refl

claim_exclusive_example :
    (claim_delivery
      (next_number (
        serve_calls next_number other_calls
          (claim_delivery 1 reminder none "main" (minutes 60) []).0))
      reminder
      none
      "mirror"
      (minutes 74)
      (serve_calls next_number other_calls
        (claim_delivery 1 reminder none "main" (minutes 60) []).0)).1
    ≡ none
unfolding claim_delivery
claim_exclusive_example =
    claim_exclusive next_number reminder none none "main" "mirror" (minutes 60) (minutes 74) []
      claimed_reminder other_calls next_number_is_fresh (λ i. omega arith) refl others_allowed refl

accepted_stays_example :
    (claim_delivery
      (next_number (
        serve_calls next_number other_calls
          (mark_accepted 1 none (minutes 61) (claimed_reminder ∷ []))))
      reminder
      none
      "mirror"
      (minutes 90)
      (serve_calls next_number other_calls
        (mark_accepted 1 none (minutes 61) (claimed_reminder ∷ [])))).1
    ≡ none
accepted_stays_example =
    accepted_stays next_number reminder none none "mirror" (minutes 61) (minutes 90) (minutes 100)
      (claimed_reminder ∷ []) claimed_reminder other_calls next_number_is_fresh
      (λ (i : ℕ). ground arith) refl (refl, (refl, (refl, tt))) refl
