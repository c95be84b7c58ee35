-- ===== src/Refunds/Confirm.antt =====
-- `confirm_refund`, `mark_refund_provider_unknown` and `complete_refund_after_provider` of
-- services.py.
use vpn_mediator_public.Prelude.{
  ℕ, String, Bool, true, false, ◌&&◌, not, Option, none, some, List, leb, ◌==◌, if◌then◌else◌,
  str_eq, Result, ok, err,
}
use vpn_mediator_public.Clock.{Instant}
use vpn_mediator_public.Orders.Status
use vpn_mediator_public.Orders.Status.{status_in}
use vpn_mediator_public.Orders.Repository.{moved_to}
use vpn_mediator_public.Leases.{Lease, acquire, release}
use vpn_mediator_public.Outbox.{Item, enqueue_once_with_status}
use vpn_mediator_public.Refunds.{
  PlanState, plan_prepared, plan_expired, plan_manual_review, RefundOperation, RefundPlan,
  mark_provider_requested, mark_manual_review, mark_confirmed, mark_state, cancel_unapplied, Refund,
}
use vpn_mediator_public.Refunds.Preview.{is_missing, is_refunding, refundable_statuses}

abbrev pub is_prepared : PlanState → Bool
is_prepared plan_prepared = true
is_prepared _ = false

abbrev pub has_token : String → RefundPlan → Bool
has_token token_hash p = elim p.confirmation_token_hash [
  | none ↦ false
  | some h ↦ str_eq h token_hash
]

abbrev pub is_over : Instant → Option Instant → Bool
is_over now none = true
is_over now (some t) = leb t now

-- Two administrators, both known, that differ.
abbrev pub differs : Option ℕ → Option ℕ → Bool
differs none b = false
differs (some a) none = false
differs (some a) (some b) = not (a == b)

-- The plan expects a version that the entitlement no longer has.
abbrev pub version_changed : Option ℕ → Option ℕ → Bool
version_changed none version = false
version_changed (some expected) none = true
version_changed (some expected) (some version) = not (version == expected)

-- `enqueue_once` under a key, where the database numbers the row.
unfoldable pub notify : ℕ → String → Instant → List Item → List Item
unfolding enqueue_once_with_status
notify id key now t = (enqueue_once_with_status id key key now t).0

abbrev pub option_map {ℓ κ} : {A : Type ℓ} {B : Type κ} → (A → B) → Option A → Option B
option_map f none = none
option_map f (some a) = some (f a)

-- The call that is made, its moment, and the number of a new notification.
pub record Confirming : Type 0 where
  pub token_hash : String
  pub admin : Option ℕ
  pub entitlement_version : Option ℕ
  pub now : Instant
  pub notice_id : ℕ

-- The refund that is under way: the provider is asked for it after this commit.
abbrev pub started : Confirming → List Lease → RefundPlan → RefundOperation → Refund → Refund
started c leases p o r = record r {
  order = moved_to c.now Status.refunding r.order;
  plan = some (mark_confirmed c.now p);
  operation = some (mark_provider_requested c.now o);
  reward = option_map cancel_unapplied r.reward;
  leases = leases;
  notices = notify c.notice_id r.terms.started_key c.now r.notices;
}

-- The lease is held: the version is compared, then the status is swapped.
unfoldable pub confirm_leased :
    Confirming
    → List Lease
    → RefundPlan
    → RefundOperation
    → Refund
    → Refund × Result String (Unit {0})
unfolding notify
confirm_leased c leases p o r =
    if version_changed p.target.expected_version c.entitlement_version
    then (
      record r {
        plan = some (
            mark_state plan_manual_review
              (some "required_entitlement_version_changed_before_provider") c.now p);
        operation =
            some
              (mark_manual_review "required_entitlement_version_changed_before_provider" c.now o);
        leases = release r.order.user_id r.terms.owner_key leases;
      },
      err "refund_state_changed",
    )
    else if not (status_in r.order.status refundable_statuses) && not (is_refunding r.order.status)
    then (r, err "refund_state_changed")
    else (started c leases p o r, ok tt)

-- The order and the operation of a plan whose token is good.
unfoldable pub confirm_plan : Confirming → RefundPlan → Refund → Refund × Result String (Unit {0})
unfolding acquire confirm_leased
confirm_plan c p r = elim r.operation [
  | none ↦ (r, err "refund_operation_not_found")
  | some o ↦
      if is_missing r.order.provider_payment_id
      then (r, err "refund_operation_not_found")
      else let (leases, owned) =
          acquire r.order.user_id "refund" r.terms.owner_key 3600 c.now r.leases in
        if owned then confirm_leased c leases p o r else (r, err "access_operation_in_progress")
]

-- `confirm_refund`
unfoldable pub confirm_refund : Confirming → Refund → Refund × Result String (Unit {0})
unfolding confirm_plan
confirm_refund c r = elim r.plan [
  | none ↦ (r, err "refund_confirmation_invalid")
  | some p ↦
      if not (has_token c.token_hash p)
      then (r, err "refund_confirmation_invalid")
      else if not (is_prepared p.state)
      then (r, err "refund_confirmation_already_used")
      else if is_over c.now p.confirmation_expires_at
      then (
        record r { plan = some (mark_state plan_expired (some "confirmation_expired") c.now p) },
        err "refund_confirmation_expired",
      )
      else if differs p.created_by_admin c.admin
      then (r, err "refund_confirmation_actor_mismatch")
      else confirm_plan c p r
]

-- `mark_refund_provider_unknown`
unfoldable pub mark_refund_provider_unknown : String → ℕ → Instant → Refund → Refund
unfolding notify
mark_refund_provider_unknown error_code notice_id now r = elim r.operation [
  | none ↦ r
  | some o ↦ record r {
    operation = some (mark_manual_review error_code now o);
    notices = notify notice_id r.terms.unknown_key now r.notices;
  }
]
