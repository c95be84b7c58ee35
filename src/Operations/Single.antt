-- ===== src/Operations/Single.antt =====
-- One operation for a source, and one active operation for a subscription.
use text.Mathlib.TextPositions.{eq_refl}
use vpn_mediator_public.Prelude.{
  ℕ, String, ◌≤◌, ◌≡◌, refl, Bool, true, false, ◌&&◌, not, some, List, [], ◌∷◌, arith, Bool-cases,
  Option-cases, inl, inr,
}
use vpn_mediator_public.Clock.{Instant}
use vpn_mediator_public.Table.{find, count_where, delete_where}
use vpn_mediator_public.Table.Counts.{find-append, count_one_updated, count_one_deleted}
use vpn_mediator_public.Operations.{
  Operation, has_operation_id, Request, has_source, get_for_source, new_operation, create_once,
  is_manual_review,
}
use vpn_mediator_public.Operations.Marks.{
  is_blocked, is_untouched, same_id, is_active_for, has_active_for_subscription, has_rival, rearmed,
  rearm_after_reconciliation,
}

created_source :
    (id : ℕ) (public_id : String) (r : Request) (now : Instant)
    → has_source r.source_entity_type r.source_entity_id r.operation_type
        (new_operation id public_id r now)
      ≡ true
created_source id public_id r now =
    ground
      (arith, eq_refl r.source_entity_type, eq_refl r.source_entity_id, eq_refl r.operation_type)

-- Creating an operation for a source again gives the operation that is there, and no row.
pub create_once_twice :
    (id id' : ℕ) (public_id public_id' : String) (r : Request) (now now' : Instant)
    (t : List Operation)
    → create_once id' public_id' r now' (create_once id public_id r now t).0
      ≡ create_once id public_id r now t
unfolding create_once get_for_source
create_once_twice id id' public_id public_id' r now now' t =
    let p = has_source r.source_entity_type r.source_entity_id r.operation_type in
    elim (Option-cases (find p t)) [
      | inl missing ↦ ground (
        arith,
        missing,
        find-append p t (new_operation id public_id r now) missing
            (created_source id public_id r now),
      )
      | inr (o, found) ↦ ground (arith, found)
    ]

deleted_count :
    (p q : Operation → Bool) (t : List Operation)
    → count_where q (delete_where p t) ≡ count_where (λ (x : Operation). q x && not (p x)) t
deleted_count p q [] = refl
deleted_count p q (x ∷ t) = ground (arith, deleted_count p q t)

no_rival :
    (o : Operation) (t : List Operation) (s : ℕ)
    → has_rival o t ≡ false
    → same_id o.subscription_id s ≡ true
    → count_where (λ (x : Operation). is_active_for s x && not (has_operation_id o.id x)) t ≡ 0
unfolding has_rival has_active_for_subscription
no_rival o t s h here = elim (Option-cases o.subscription_id) [
  | inl absent ↦ absurd (ground (arith, absent, here))
  | inr (k, present) ↦
      let same : k ≡ s = ground (arith, present, here) in rw (← same) (ground (arith, present, h))
]

-- Rearming an operation after a reconciliation never leaves a subscription with two active ones: if
-- every id is that of one row, and a subscription had at most one active operation, it still does.
pub rearm_single :
    (o : Operation) (now : Instant) (t : List Operation) (s : ℕ)
    → find (has_operation_id o.id) t ≡ some o
    → count_where (has_operation_id o.id) t ≤ 1
    → count_where (is_active_for s) t ≤ 1
    → count_where (is_active_for s) (rearm_after_reconciliation o now t).0 ≤ 1
unfolding rearm_after_reconciliation has_rival has_active_for_subscription
rearm_single o now t s found one single =
    let guard =
      is_manual_review o.state
      && is_blocked o.last_error_code
      && is_untouched o
      && not (has_rival o t) in
    let moved =
      count_one_updated (has_operation_id o.id) (is_active_for s) (rearmed now) t o one found in
    let rest = count_one_deleted (has_operation_id o.id) (is_active_for s) t o one found in
    let others = deleted_count (has_operation_id o.id) (is_active_for s) t in
    elim (Bool-cases guard) [
      | inr refused ↦ rw (refused, rearm_after_reconciliation) single
      | inl free ↦
          rw (free, rearm_after_reconciliation)
            (elim (Bool-cases (same_id o.subscription_id s)) [
              | inr elsewhere ↦ ground (arith, elsewhere, moved, single)
              | inl here ↦
                  let inactive : is_active_for s o ≡ false = ground (arith, free) in
                  let none_left = no_rival o t s (ground (arith, free)) here in
                  ground (arith, moved, rest, others, inactive, none_left)
            ])
    ]
