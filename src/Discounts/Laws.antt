-- ===== src/Discounts/Laws.antt =====
-- The use counts over reservations, payments, releases and recoveries.
use vpn_mediator_public.Prelude.{
  ℕ, ◌≡◌, ◌⊎◌, refl, Bool, true, false, ◌&&◌, Option, none, some, List, [], ◌∷◌, ◌++◌, ◌==◌, leb,
  arith, Result, ok, err, Bool-cases, Option-cases, inl, inr,
}
use vpn_mediator_public.Clock.{Instant}
use vpn_mediator_public.Table.{find, update_where, count_where}
use vpn_mediator_public.Table.Rows.{find-passes}
use vpn_mediator_public.Table.Counts.{
  count-append, count_of_missing, count-update_where, count_mono, All-of_count, All-both,
  All-update_where_into,
}
use vpn_mediator_public.Discounts
use vpn_mediator_public.Discounts.{
  Discount, is_reserved, RedemptionStatus, reserved, applied, released, unknown, Redemption,
  DiscountError, of_order, is_released, can_reserve, use_once, unuse_once, apply_redemption,
  release_redemption, restore_redemption, reserve, reserve_for_order, apply_for_order,
  release_for_order, restore_for_paid_order, apply_found, release_found, restore_other,
}
use vpn_mediator_public.Discounts.Counts.{
  is_use_of, has_id, UsesMatch, IsCounted, same_uses, uses_fewer, uses_more,
}

status_cases :
    (s : RedemptionStatus) → (s ≡ reserved) ⊎ (s ≡ applied) ⊎ (s ≡ released) ⊎ (s ≡ unknown)
status_cases reserved = inl refl
status_cases applied = inr (inl refl)
status_cases released = inr (inr (inl refl))
status_cases unknown = inr (inr (inr refl))

apply-IsCounted :
    (order_id : ℕ) (now : Instant) (s s' : Discounts.Store)
    → IsCounted s
    → apply_for_order order_id now s ≡ ok s'
    → IsCounted s'
unfolding apply_for_order apply_found
apply-IsCounted order_id now s s' v h =
    elim (Option-cases (find (of_order order_id) s.redemptions)) [
      | inl missing ↦ let e : s ≡ s' = ground (arith, missing) in rw (← e) v
      | inr (r, found) ↦ elim (Bool-cases (is_reserved r.status)) [
        | inl held ↦
            let e : record s {
              redemptions = update_where (of_order order_id) (apply_redemption now) s.redemptions;
            }
                ≡ s' =
              ground (arith, found, held) in
            rw (← e) (
              same_uses (of_order order_id) (apply_redemption now) s r v (λ q. refl)
                (v.one_redemption order_id) found (λ n. ground (arith, held)))
        | inr other ↦ let e : s ≡ s' = ground (arith, found, other) in rw (← e) v
      ]
    ]

release-IsCounted :
    (order_id : ℕ) (now : Instant) (s : Discounts.Store)
    → IsCounted s
    → IsCounted (release_for_order order_id now s)
unfolding release_for_order release_found
release-IsCounted order_id now s v = elim (Option-cases (find (of_order order_id) s.redemptions)) [
  | inl missing ↦ rw (missing, release_for_order) v
  | inr (r, found) ↦ elim (status_cases r.status) [
    | inl held ↦
        rw (found, held, release_for_order)
          (uses_fewer (of_order order_id) (release_redemption now) s r v (λ q. refl)
            (v.one_redemption order_id) found (rw held refl) (λ n. ground arith))
    | inr (inl done) ↦ rw (found, done, release_for_order) v
    | inr (inr (inl gone)) ↦ rw (found, gone, release_for_order) v
    | inr (inr (inr other)) ↦
        rw (found, other, release_for_order)
          (uses_fewer (of_order order_id) (release_redemption now) s r v (λ q. refl)
            (v.one_redemption order_id) found (rw other refl) (λ n. ground arith))
  ]
]

restore-IsCounted :
    (order_id : ℕ) (now : Instant) (s s' : Discounts.Store)
    → IsCounted s
    → restore_for_paid_order order_id now s ≡ ok s'
    → IsCounted s'
unfolding restore_for_paid_order restore_other
restore-IsCounted order_id now s s' v h =
    let p = λ (r : Redemption). of_order order_id r && is_released r.status in
    elim (Option-cases (find p s.redemptions)) [
      | inl missing ↦ let e : s ≡ s' = ground (arith, missing) in rw (← e) v
      | inr (r, found) ↦
          let passes = find-passes p s.redemptions r found in
          let one = count_mono p (of_order order_id) s.redemptions (λ q e. ground arith) in
          let e : record {
            discounts = update_where (λ (d : Discount). d.id == r.discount_id) use_once s.discounts;
            redemptions = update_where p (restore_redemption now) s.redemptions;
          }
              ≡ s' =
            ground (arith, found) in
          rw (← e) (
            uses_more p (restore_redemption now) s r v (λ q. refl)
              (omega (arith, one, v.one_redemption order_id)) found (ground (arith, passes))
              (λ n. ground arith))
    ]

-- A discount that a reservation does not take has another id.
reserve_other :
    (s : Discounts.Store) (p : Discount → Bool) (d : Discount) (r : Redemption)
    → p d ≡ false
    → UsesMatch s.redemptions d × (has_id r.discount_id d ≡ true → p d ≡ true)
    → UsesMatch (s.redemptions ++ r ∷ []) d
reserve_other s p d r miss both = elim (Bool-cases (has_id r.discount_id d)) [
  | inl same ↦ absurd (ground (arith, miss, both.1 same))
  | inr other ↦ ground (arith, both.0, other, count-append (is_use_of d.id) s.redemptions r)
]

reserve-IsCounted :
    (order_id user_id discount_id amount : ℕ) (now : Instant) (s s' : Discounts.Store)
    → IsCounted s
    → reserve order_id user_id discount_id amount now s ≡ ok s'
    → IsCounted s'
unfolding reserve
reserve-IsCounted order_id user_id discount_id amount now s s' v h =
    elim (Option-cases (find (of_order order_id) s.redemptions)) [
      | inr (existing, found) ↦ let e : s ≡ s' = ground (arith, found) in rw (← e) v
      | inl missing ↦
          let p = can_reserve discount_id user_id now in
          elim (Bool-cases (count_where p s.discounts == 1)) [
            | inr refused ↦ absurd (ground (arith, missing, refused))
            | inl claimed ↦
                let r : Redemption = record {
                  discount_id = discount_id;
                  order_id = order_id;
                  status = reserved;
                  discount_amount = amount;
                  reserved_at = some now;
                  applied_at = none;
                  released_at = none;
                } in
                let e : record {
                  discounts = update_where p use_once s.discounts;
                  redemptions = s.redemptions ++ r ∷ [];
                }
                    ≡ s' =
                  ground (arith, missing, claimed) in
                let one : count_where p s.discounts ≡ 1 = ground (arith, claimed) in
                let taken =
                  All-of_count p (has_id discount_id) s.discounts (λ d e. ground arith)
                    (rw one (v.one_discount discount_id)) in
                rw (← e) (record {
                  one_discount = λ n.
                      rw (count-update_where (has_id n) p use_once s.discounts (λ d. refl))
                        (v.one_discount n);
                  one_redemption = λ n.
                      rw (count-append (of_order n) s.redemptions r)
                        (elim (Bool-cases (order_id == n)) [
                          | inl same ↦
                              let eq : order_id ≡ n = ground arith in
                              rw same (
                                rw
                                  (← eq, count_of_missing (of_order order_id) s.redemptions missing)
                                  (omega arith))
                          | inr other ↦ rw other (omega (arith, v.one_redemption n))
                        ]);
                  uses =
                      All-update_where_into
                        (λ (d : Discount).
                          UsesMatch s.redemptions d × (has_id discount_id d ≡ true → p d ≡ true))
                        (UsesMatch (s.redemptions ++ r ∷ [])) p use_once
                        (λ d both hit.
                          ground (arith, both, hit, count-append (is_use_of d.id) s.redemptions r))
                        (λ d both miss. reserve_other s p d r miss both) s.discounts
                        (All-both (UsesMatch s.redemptions)
                          (λ (d : Discount). has_id discount_id d ≡ true → p d ≡ true) s.discounts
                          v.uses taken);
                })
          ]
    ]

-- The calls that change the two tables.
pub data Op : Type 0 where
  reserve_call : (order_id user_id : ℕ) (discount_id : Option ℕ) (amount : ℕ) → Op
  apply_call release_call restore_call : (order_id : ℕ) → Op

-- A call that raises is rolled back.
abbrev pub or_unchanged : Discounts.Store → Result DiscountError Discounts.Store → Discounts.Store
or_unchanged s (ok s') = s'
or_unchanged s (err e) = s

unfoldable pub apply_op : Op → Instant → Discounts.Store → Discounts.Store
apply_op (reserve_call o u d amount) now s = or_unchanged s (reserve_for_order o u d amount now s)
apply_op (apply_call o) now s = or_unchanged s (apply_for_order o now s)
apply_op (release_call o) now s = release_for_order o now s
apply_op (restore_call o) now s = or_unchanged s (restore_for_paid_order o now s)

unfoldable pub run_ops : List (Op × Instant) → Discounts.Store → Discounts.Store
run_ops [] s = s
run_ops ((op, now) ∷ ops) s = run_ops ops (apply_op op now s)

or_unchanged-IsCounted :
    (s : Discounts.Store) (r : Result DiscountError Discounts.Store)
    → IsCounted s
    → ((s' : Discounts.Store) → r ≡ ok s' → IsCounted s')
    → IsCounted (or_unchanged s r)
or_unchanged-IsCounted s (ok s') v step = step s' refl
or_unchanged-IsCounted s (err e) v step = v

reserve_for_order-IsCounted :
    (order_id user_id : ℕ) (d : Option ℕ) (amount : ℕ) (now : Instant) (s s' : Discounts.Store)
    → IsCounted s
    → reserve_for_order order_id user_id d amount now s ≡ ok s'
    → IsCounted s'
unfolding reserve_for_order
reserve_for_order-IsCounted o u none amount now s s' v h =
    let e : s ≡ s' = ground (arith, h) in rw (← e) v
reserve_for_order-IsCounted o u (some d) amount now s s' v h = elim (Bool-cases (leb amount 0)) [
  | inl free ↦ let e : s ≡ s' = ground (arith, free, h) in rw (← e) v
  | inr paid ↦ reserve-IsCounted o u d amount now s s' v (rw paid at h)
]

-- Whatever reservations, payments, releases and recoveries follow each other, at whatever moments,
-- the use count of every discount stays the number of its redemptions that were not released, with
-- at most one redemption for an order and one discount for an id.
pub run_ops-IsCounted :
    (ops : List (Op × Instant)) (s : Discounts.Store) → IsCounted s → IsCounted (run_ops ops s)
unfolding run_ops apply_op
run_ops-IsCounted [] s v = v
run_ops-IsCounted ((reserve_call o u d amount, now) ∷ ops) s v =
    run_ops-IsCounted ops _
      (or_unchanged-IsCounted s _ v (λ s' h. reserve_for_order-IsCounted o u d amount now s s' v h))
run_ops-IsCounted ((apply_call o, now) ∷ ops) s v =
    run_ops-IsCounted ops _ (or_unchanged-IsCounted s _ v (λ s' h. apply-IsCounted o now s s' v h))
run_ops-IsCounted ((release_call o, now) ∷ ops) s v =
    run_ops-IsCounted ops _ (release-IsCounted o now s v)
run_ops-IsCounted ((restore_call o, now) ∷ ops) s v =
    run_ops-IsCounted ops _
      (or_unchanged-IsCounted s _ v (λ s' h. restore-IsCounted o now s s' v h))
