-- ===== src/Refunds/Single.antt =====
-- The provider is asked for a refund of an order at most once, and what an expired confirmation does.
use vpn_mediator_public.Prelude.{
  ℕ, ◌≤◌, ◌≡◌, refl, String, Bool, true, ◌||◌, ◌&&◌, not, Option, none, some, List, [], ◌∷◌, arith,
  Bool-cases, Option-cases, Result-cases, inl, inr, ◌⊎◌,
}
use vpn_mediator_public.Clock.{Instant}
use vpn_mediator_public.Orders.Status.{status_in}
use vpn_mediator_public.Leases.{Lease, acquire}
use vpn_mediator_public.Refunds.{
  RefundOperation, RefundPlan, mark_provider_refunded, mark_state, plan_provider_refunded, Refund,
}
use vpn_mediator_public.Refunds.Preview.{
  Snapshot, Asking, check_candidate, preview_refund, is_refunding, is_refunded, is_missing,
  refundable_statuses,
}
use vpn_mediator_public.Refunds.Confirm.{
  Confirming, is_prepared, has_token, confirm_leased, confirm_plan, confirm_refund, version_changed,
  started, is_over, differs, mark_refund_provider_unknown,
}
use vpn_mediator_public.Refunds.Complete.{
  Completing, is_completed, hold_lease, finish_refund, compensate, check_compensation,
  after_provider, complete_refund,
}
use vpn_mediator_public.Refunds.Calls.{
  RefundCall, preview_call, confirm_call, unknown_call, complete_call, is_ok, at_most_one,
  refund_call, asks_provider, provider_requests,
}

abbrev pub plan_closed : Option RefundPlan → Bool
plan_closed none = true
plan_closed (some p) = not (is_prepared p.state)

-- The refund has been confirmed before.
pub record IsLocked (r : Refund) : Type 0 where
  pub settled : is_refunding r.order.status || is_refunded r.order.status ≡ true
  pub closed : plan_closed r.plan ≡ true

preview-IsLocked :
    (upper : String → String) (s : Snapshot) (q : Asking) (now : Instant) (r : Refund)
    → IsLocked r
    → IsLocked (preview_refund upper s q now r).0
unfolding preview_refund check_candidate
preview-IsLocked upper s q now r v =
    let e : (preview_refund upper s q now r).0 ≡ r = ground (arith, v.settled) in rw e v

pub confirm_locked :
    (c : Confirming) (r : Refund)
    → plan_closed r.plan ≡ true
    → ((confirm_refund c r).0 ≡ r) × (is_ok (confirm_refund c r).1 ≡ 0)
unfolding confirm_refund
confirm_locked c r closed = elim (Option-cases r.plan) [
  | inl missing ↦ (ground (arith, missing), ground (arith, missing))
  | inr (p, has) ↦ (ground (arith, has, closed), ground (arith, has, closed))
]

leased_locks :
    (c : Confirming) (leases : List Lease) (p : RefundPlan) (o : RefundOperation) (r : Refund)
    → (is_ok (confirm_leased c leases p o r).1 ≡ 0) ⊎ IsLocked (confirm_leased c leases p o r).0
unfolding confirm_leased
leased_locks c leases p o r =
    elim (Bool-cases (version_changed p.target.expected_version c.entitlement_version)) [
      | inl changed ↦ inl (ground (arith, changed))
      | inr same ↦
          elim (Bool-cases (
            not (status_in r.order.status refundable_statuses)
            && not (is_refunding r.order.status))) [
              | inl other ↦ inl (ground (arith, same, other))
              | inr fits ↦
                  let e : (confirm_leased c leases p o r).0 ≡ started c leases p o r =
                    ground (arith, same, fits) in
                  inr (rw e (record { settled = refl; closed = refl }))
            ]
    ]

plan_locks :
    (c : Confirming) (p : RefundPlan) (r : Refund)
    → (is_ok (confirm_plan c p r).1 ≡ 0) ⊎ IsLocked (confirm_plan c p r).0
unfolding confirm_plan
plan_locks c p r = elim (Option-cases r.operation) [
  | inl missing ↦ inl (ground (arith, missing))
  | inr (o, has) ↦ elim (Bool-cases (is_missing r.order.provider_payment_id)) [
    | inl uncharged ↦ inl (ground (arith, has, uncharged))
    | inr charged ↦
        let lease = acquire r.order.user_id "refund" r.terms.owner_key 3600 c.now r.leases in
        elim (Bool-cases lease.1) [
          | inl owned ↦
              let e : confirm_plan c p r ≡ confirm_leased c lease.0 p o r =
                ground (arith, has, charged, owned) in
              rw e (leased_locks c lease.0 p o r)
          | inr taken ↦ inl (ground (arith, has, charged, taken))
        ]
  ]
]

-- A confirmation that succeeds locks the refund.
confirm_locks :
    (c : Confirming) (r : Refund)
    → (is_ok (confirm_refund c r).1 ≡ 0) ⊎ IsLocked (confirm_refund c r).0
unfolding confirm_refund
confirm_locks c r = elim (Option-cases r.plan) [
  | inl missing ↦ inl (ground (arith, missing))
  | inr (p, has) ↦
      elim (Bool-cases (
        has_token c.token_hash p
        && is_prepared p.state
        && not (is_over c.now p.confirmation_expires_at)
        && not (differs p.created_by_admin c.admin))) [
          | inl good ↦
              let e : confirm_refund c r ≡ confirm_plan c p r = ground (arith, has, good) in
              rw e (plan_locks c p r)
          | inr bad ↦ inl (ground (arith, has, bad))
        ]
]

finish-IsLocked :
    (c : Completing) (o : RefundOperation) (p : RefundPlan) (r : Refund)
    → IsLocked (finish_refund c o p r)
unfolding finish_refund
finish-IsLocked c o p r = record { settled = refl; closed = refl }

compensate-IsLocked :
    (c : Completing) (o : RefundOperation) (p : RefundPlan) (r : Refund)
    → is_refunding r.order.status || is_refunded r.order.status ≡ true
    → IsLocked (compensate c o p r).0
unfolding compensate finish_refund
compensate-IsLocked c o p r settled = elim (Result-cases c.compensates) [
  | inl (done, worked) ↦ rw (worked, compensate) (record { settled = refl; closed = refl })
  | inr (code, failed) ↦ rw (failed, compensate) (record { settled = settled; closed = refl })
]

check-IsLocked :
    (c : Completing) (o : RefundOperation) (p : RefundPlan) (r : Refund)
    → is_refunding r.order.status || is_refunded r.order.status ≡ true
    → IsLocked (check_compensation c o p r).0
unfolding check_compensation
check-IsLocked c o p r settled =
    let after = compensate-IsLocked c o p r settled in
    record {
      settled = ground (arith, settled, after.settled);
      closed = ground (arith, after.closed);
    }

provider-IsLocked :
    (c : Completing) (o : RefundOperation) (r : Refund)
    → IsLocked r
    → IsLocked (after_provider c o r).0
unfolding after_provider
provider-IsLocked c o r v = elim (Option-cases r.plan) [
  | inl missing ↦ record {
    settled = ground (arith, missing, v.settled);
    closed = ground (arith, missing);
  }
  | inr (p, has) ↦
      let p' = mark_state plan_provider_refunded none c.now p in
      let r' : Refund = record r { operation = some o; plan = some p' } in
      let checked = check-IsLocked c o p' r' v.settled in
      let finished = finish-IsLocked c o p' r' in
      record {
        settled = ground (arith, has, checked.settled, finished.settled);
        closed = ground (arith, has, checked.closed, finished.closed);
      }
]

complete-IsLocked : (c : Completing) (r : Refund) → IsLocked r → IsLocked (complete_refund c r).0
unfolding complete_refund
complete-IsLocked c r v = elim (Option-cases r.operation) [
  | inl missing ↦ let e : (complete_refund c r).0 ≡ r = ground (arith, missing) in rw e v
  | inr (o, has) ↦
      let asked : Refund = record r { leases = (hold_lease c r).0 } in
      let after =
        provider-IsLocked c (mark_provider_refunded c.now o) asked
          (record { settled = v.settled; closed = v.closed }) in
      elim (Bool-cases (
        not (is_completed o.state && is_refunded r.order.status)
        && is_refunding r.order.status
        && (hold_lease c r).1)) [
          | inl goes ↦
              let e : (complete_refund c r).0
                  ≡ (after_provider c (mark_provider_refunded c.now o) asked).0 =
                ground (arith, has, goes) in
              rw e after
          | inr stays ↦ let e : (complete_refund c r).0 ≡ r = ground (arith, has, stays) in rw e v
        ]
]

unknown-IsLocked :
    (code : String) (id : ℕ) (now : Instant) (r : Refund)
    → IsLocked r
    → IsLocked (mark_refund_provider_unknown code id now r)
unfolding mark_refund_provider_unknown
unknown-IsLocked code id now r v = record {
  settled = ground (arith, v.settled);
  closed = ground (arith, v.closed);
}

locked_requests :
    (upper : String → String) (cs : List RefundCall) (r : Refund)
    → IsLocked r
    → provider_requests upper cs r ≡ 0
unfolding provider_requests refund_call asks_provider
locked_requests upper [] r v = refl
locked_requests upper (preview_call s q now ∷ cs) r v = omega (
  arith,
  locked_requests upper cs (preview_refund upper s q now r).0 (preview-IsLocked upper s q now r v),
)
locked_requests upper (confirm_call c ∷ cs) r v =
    let (same, zero_asked) = confirm_locked c r v.closed in
    rw (zero_asked, same) (omega (arith, locked_requests upper cs r v))
locked_requests upper (unknown_call code id now ∷ cs) r v = omega (
  arith,
  locked_requests upper cs (mark_refund_provider_unknown code id now r)
      (unknown-IsLocked code id now r v),
)
locked_requests upper (complete_call c ∷ cs) r v =
    omega (arith, locked_requests upper cs (complete_refund c r).0 (complete-IsLocked c r v))

-- Whatever previews, confirmations, reports of an unknown outcome and completions follow each other,
-- the provider is asked to refund an order at most once.
pub refund_requested_once :
    (upper : String → String) (cs : List RefundCall) (r : Refund) → provider_requests upper cs r ≤ 1
unfolding provider_requests refund_call asks_provider
refund_requested_once upper [] r = omega arith
refund_requested_once upper (preview_call s q now ∷ cs) r =
    omega (arith, refund_requested_once upper cs (preview_refund upper s q now r).0)
refund_requested_once upper (unknown_call code id now ∷ cs) r =
    omega (arith, refund_requested_once upper cs (mark_refund_provider_unknown code id now r))
refund_requested_once upper (complete_call c ∷ cs) r =
    omega (arith, refund_requested_once upper cs (complete_refund c r).0)
refund_requested_once upper (confirm_call c ∷ cs) r = elim (confirm_locks c r) [
  | inl failed ↦ rw failed (omega (arith, refund_requested_once upper cs (confirm_refund c r).0))
  | inr locked ↦ ground (
    arith,
    locked_requests upper cs (confirm_refund c r).0 locked,
    at_most_one (confirm_refund c r).1,
  )
]
