-- ===== src/Tests/DiscountRuns.antt =====
-- A personal discount of one use: reserved, released, and reserved by another order.
use vpn_mediator_public.Prelude.{
  ◌≡◌, refl, true, none, some, List, [], ◌∷◌, arith, Bool-cases, inl, inr, err,
}
use vpn_mediator_public.Clock.{Instant}
use vpn_mediator_public.Discounts
use vpn_mediator_public.Discounts.{
  Discount, reserve_for_order, reserve, discount_no_longer_available,
}
use vpn_mediator_public.Discounts.Counts.{IsCounted, has_id}
use vpn_mediator_public.Discounts.Laws.{
  Op, reserve_call, apply_call, release_call, run_ops, run_ops-IsCounted,
}

abbrev once : Discount
once = record {
  id = 3;
  user_id = 7;
  is_active = true;
  starts_at = none;
  expires_at = none;
  max_uses = some 1;
  used_count = 0;
}

abbrev store : Discounts.Store
store = record { discounts = once ∷ []; redemptions = [] }

store-IsCounted : IsCounted store
store-IsCounted = record {
  one_discount = λ n. elim (Bool-cases (has_id n once)) [
    | inl a ↦ rw a (omega arith)
    | inr a ↦ rw a (omega arith)
  ];
  one_redemption = λ n. omega arith;
  uses = (refl, tt);
}

abbrev calls : List (Op × Instant)
calls =
    (reserve_call 1 7 (some 3) 500, 1000)
    ∷ (reserve_call 2 7 (some 3) 500, 2000)
    ∷ (release_call 1, 3000)
    ∷ (reserve_call 2 7 (some 3) 500, 4000)
    ∷ (apply_call 2, 5000)
    ∷ []

run_ops-IsCounted_example : IsCounted (run_ops calls store)
run_ops-IsCounted_example = run_ops-IsCounted calls store store-IsCounted

-- The only use cannot be reserved for a second order.
reserve_exhausted :
    reserve_for_order 2 7
      (some 3)
      500
      2000
      (record { discounts = record once { used_count = 1 } ∷ []; redemptions = [] })
    ≡ err discount_no_longer_available
unfolding reserve_for_order reserve
reserve_exhausted = refl
