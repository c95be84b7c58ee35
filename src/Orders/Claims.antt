-- ===== src/Orders/Claims.antt =====
-- The compare-and-set on an order's status.
use vpn_mediator_public.Prelude.{
  ℕ, ◌≡◌, refl, Bool, false, ◌&&◌, List, [], ◌∷◌, arith, Bool-cases, inl, inr,
}
use vpn_mediator_public.Clock.{Instant}
use vpn_mediator_public.Table.{update_where, count_where}
use vpn_mediator_public.Table.Rows.{update_where-none}
use vpn_mediator_public.Orders.Status.{OrderStatus, status_in}
use vpn_mediator_public.Orders.Repository.{Order, has_order_id, moved_to, transition_status}

abbrev takes : ℕ → List OrderStatus → Order → Bool
takes i expected o = has_order_id i o && status_in o.status expected

status-moved_to :
    (now : Instant) (next : OrderStatus) (o : Order) → (moved_to now next o).status ≡ next
status-moved_to now next o = ground arith

count-moved :
    (i : ℕ) (expected : List OrderStatus) (next : OrderStatus) (now : Instant) (t : List Order)
    → status_in next expected ≡ false
    → count_where (takes i expected) (update_where (takes i expected) (moved_to now next) t) ≡ 0
count-moved i expected next now [] h = refl
count-moved i expected next now (o ∷ t) h = elim (Bool-cases (takes i expected o)) [
  | inl took ↦
      let status = status-moved_to now next o in
      let lost : takes i expected (moved_to now next o) ≡ false = ground (arith, status, h) in
      rw (took, lost) (count-moved i expected next now t h)
  | inr left ↦ rw (left, left) (count-moved i expected next now t h)
]

-- After an attempt to take an order out of some statuses into one that is not among them, every
-- further attempt to take it out of the same statuses changes nothing and reports that.
pub transition_once :
    (i : ℕ) (expected : List OrderStatus) (next next' : OrderStatus) (now now' : Instant)
    (t : List Order)
    → status_in next expected ≡ false
    → let after = (transition_status i expected next now t).0 in
      transition_status i expected next' now' after ≡ (after, false)
unfolding transition_status
transition_once i expected next next' now now' t h =
    let z = count-moved i expected next now t h in
    let same =
      update_where-none (takes i expected) (moved_to now' next')
        (update_where (takes i expected) (moved_to now next) t) z in
    rw (z, same) refl
