-- ===== src/Refunds/Complete.antt =====
-- `complete_refund_after_provider` of services.py: from the provider's refund to the compensation of
-- the entitlement and the end of the refund. Its three commits are three functions.
use vpn_mediator_public.Prelude.{
  ℕ, String, Bool, true, false, ◌&&◌, ◌||◌, not, Option, none, some, List, if◌then◌else◌, Result,
  ok, err,
}
use vpn_mediator_public.Clock.{Instant}
use vpn_mediator_public.Orders.Repository.{mark_refunded}
use vpn_mediator_public.Leases.{Lease, acquire, renew, release}
use vpn_mediator_public.Refunds.{
  RefundStage, completed, plan_manual_review, plan_provider_refunded, plan_compensation_pending,
  plan_completed, RefundOperation, RefundPlan, mark_provider_refunded, mark_compensation_pending,
  mark_completed, mark_manual_review, mark_state, Refund,
}
use vpn_mediator_public.Refunds.Preview.{Holding, is_refunding, is_refunded}
use vpn_mediator_public.Refunds.Confirm.{notify, version_changed}

-- What the rest of the system answers: whether the order was applied, to which subscription, the
-- number of the compensating entitlement operation, and whether the coordinator applied it.
pub record Completing : Type 0 where
  pub is_applied : Bool
  pub subscription : Option Holding
  pub compensation_id : ℕ
  pub compensates : Result String (Unit {0})
  pub now : Instant
  pub notice_id : ℕ

abbrev pub is_completed : RefundStage → Bool
is_completed completed = true
is_completed _ = false

abbrev pub is_absent {ℓ} : {A : Type ℓ} → Option A → Bool
is_absent none = true
is_absent (some a) = false

-- `renew`, and `acquire` where there is nothing to renew.
unfoldable pub hold_lease : Completing → Refund → List Lease × Bool
unfolding renew acquire
hold_lease c r =
    let (leases, renewed) = renew r.order.user_id r.terms.owner_key 3600 c.now r.leases in
    if renewed
    then (leases, true)
    else acquire r.order.user_id "refund" r.terms.owner_key 3600 c.now leases

-- Operation and plan are left to an operator.
abbrev pub give_to_operator : String → Instant → RefundOperation → RefundPlan → Refund → Refund
give_to_operator code now o p r = record r {
  operation = some (mark_manual_review code now o);
  plan = some (mark_state plan_manual_review (some code) now p);
}

-- The last commit.
unfoldable pub finish_refund : Completing → RefundOperation → RefundPlan → Refund → Refund
unfolding notify release
finish_refund c o p r = record r {
  order = mark_refunded r.order;
  operation = some (mark_completed c.now o);
  plan = some (mark_state plan_completed none c.now p);
  notices = notify c.notice_id r.terms.completed_key c.now r.notices;
  leases = release r.order.user_id r.terms.owner_key r.leases;
}

-- The compensation: the operation is recorded and committed, then the coordinator applies it.
unfoldable pub compensate :
    Completing → RefundOperation → RefundPlan → Refund → Refund × Result String (Unit {0})
unfolding finish_refund
compensate c o p r =
    let o' = mark_compensation_pending c.compensation_id c.now o in
    let p' = mark_state plan_compensation_pending none c.now p in
    let r' : Refund = record r { operation = some o'; plan = some p' } in
    elim c.compensates [ err code ↦ (r', err code) | ok done ↦ (finish_refund c o' p' r', ok tt) ]

-- The checks before the compensation.
unfoldable pub check_compensation :
    Completing → RefundOperation → RefundPlan → Refund → Refund × Result String (Unit {0})
unfolding compensate
check_compensation c o p r = elim c.subscription [
  | none ↦ (
    give_to_operator "refund_subscription_missing" c.now o p r,
    err "refund_subscription_missing",
  )
  | some h ↦ elim h.entitlement_version [
    | none ↦ (
      give_to_operator "refund_entitlement_missing" c.now o p r,
      err "refund_entitlement_missing",
    )
    | some version ↦
        if version_changed p.target.expected_version (some version)
        then (
          give_to_operator "required_entitlement_version_changed" c.now o p r,
          err "refund_compensation_requires_manual_review",
        )
        else if is_absent p.target.target_valid_until || is_absent p.target.target_max_devices
        then (give_to_operator "refund_plan_incomplete" c.now o p r, err "refund_plan_incomplete")
        else compensate c o p r
  ]
]

-- After the provider's refund is recorded.
unfoldable pub after_provider :
    Completing → RefundOperation → Refund → Refund × Result String (Unit {0})
unfolding check_compensation finish_refund
after_provider c o r = elim r.plan [
  | none ↦ (
    record r { operation = some (mark_manual_review "refund_plan_missing" c.now o) },
    err "refund_plan_missing_after_provider_refund",
  )
  | some p ↦
      let p' = mark_state plan_provider_refunded none c.now p in
      let r' : Refund = record r { operation = some o; plan = some p' } in
      if c.is_applied then check_compensation c o p' r' else (finish_refund c o p' r', ok tt)
]

-- `complete_refund_after_provider`
unfoldable pub complete_refund : Completing → Refund → Refund × Result String (Unit {0})
unfolding hold_lease after_provider
complete_refund c r = elim r.operation [
  | none ↦ (r, err "refund_operation_not_found")
  | some o ↦
      if is_completed o.state && is_refunded r.order.status
      then (r, ok tt)
      else if not (is_refunding r.order.status)
      then (r, err "refund_not_prepared")
      else let (leases, owned) = hold_lease c r in
        if owned
        then after_provider c (mark_provider_refunded c.now o) (record r { leases = leases })
        else (r, err "access_operation_in_progress")
]
