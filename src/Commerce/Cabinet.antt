-- ===== src/Commerce/Cabinet.antt =====
-- `CabinetState`, `CabinetStateBuilder`, `RefundPolicy` and `calculate_renewal_valid_until` of
-- commerce.py.
use vpn_mediator_public.Prelude.{
  ℕ, ◌+◌, ◌-◌, ◌/◌, String, Bool, true, false, ◌||◌, Option, none, some, List, [], ◌∷◌, ltb, leb,
  if◌then◌else◌,
}
use vpn_mediator_public.Clock.{Instant, DateTime, to_aware_utc, days}
use vpn_mediator_public.Orders.Status.{
  OrderStatus, pending, payment_received, activating, activation_failed, is_paid_unapplied,
}
use vpn_mediator_public.Lifecycle.{Status, is_disabled, is_expired}
use vpn_mediator_public.Pricing.Service.{OrderKind}

pub data LifecycleState : Type 0 where
  no_subscription active expired disabled : LifecycleState

pub data NoticeState : Type 0 where
  no_notice payment_pending received activating_access activation_stuck : NoticeState

pub data Action : Type 0 where
  recover_access continue_order add_device resume support purchase : Action
  cancel_order payment_help devices renew more how_it_works : Action

-- The columns of `Subscription`, `Order` and `TrialEligibility` that the cabinet shows.
pub record SubscriptionView : Type 0 where
  pub status : Status
  pub expires_at : DateTime
  pub max_devices : ℕ

pub record OrderView : Type 0 where
  pub status : OrderStatus
  pub public_order_id : String
  pub order_kind : OrderKind

pub record CabinetState : Type 0 where
  pub subscription_state : LifecycleState
  pub order_notice_state : NoticeState
  pub valid_until_utc : Option Instant
  pub remaining_days : Option ℕ
  pub active_device_tokens : Option ℕ
  pub max_device_tokens : Option ℕ
  pub mediator_available : Bool
  pub commerce_available : Bool
  pub trial_available : Bool
  pub trial_retry_available : Bool
  pub pending_order_public_id : Option String
  pub pending_order_kind : Option OrderKind

-- `OrderNoticeState` of the order's status: `_order_notice`
unfoldable pub order_notice : Option OrderView → NoticeState
order_notice none = no_notice
order_notice (some order) = notice_of order.status
  where
    notice_of : OrderStatus → NoticeState
    notice_of pending = payment_pending
    notice_of payment_received = received
    notice_of activating = activating_access
    notice_of activation_failed = activation_stuck
    notice_of _ = no_notice

unfoldable pub lifecycle_state : SubscriptionView → Instant → LifecycleState
lifecycle_state s now =
    if is_disabled s.status
    then disabled
    else if is_expired s.status || leb (to_aware_utc s.expires_at) now
    then expired
    else active

-- `(expires_at.date() - now.date()).days`, at least 0: both dates are days of UTC.
abbrev pub remaining_days_of : Instant → Instant → ℕ
remaining_days_of expires_at now = expires_at / days 1 - now / days 1

abbrev pub public_id_of : Option OrderView → Option String
public_id_of none = none
public_id_of (some o) = some o.public_order_id

abbrev pub kind_of : Option OrderView → Option OrderKind
kind_of none = none
kind_of (some o) = some o.order_kind

-- The arguments of `build`; `trial_available` and `trial_retry` are the fields of the eligibility.
pub record CabinetInput : Type 0 where
  pub subscription : Option SubscriptionView
  pub latest_order : Option OrderView
  pub trial_available : Bool
  pub trial_retry : Bool
  pub active_device_tokens : Option ℕ
  pub mediator_available : Bool
  pub commerce_available : Bool
  pub now : DateTime

abbrev shown : CabinetInput → LifecycleState → Option Instant → Option ℕ → ℕ → CabinetState
shown i state expires_at remaining_days max_devices = record {
  subscription_state = state;
  order_notice_state = order_notice i.latest_order;
  valid_until_utc = expires_at;
  remaining_days = remaining_days;
  active_device_tokens = i.active_device_tokens;
  max_device_tokens = some max_devices;
  mediator_available = i.mediator_available;
  commerce_available = i.commerce_available;
  trial_available = i.trial_available;
  trial_retry_available = i.trial_retry;
  pending_order_public_id = public_id_of i.latest_order;
  pending_order_kind = kind_of i.latest_order;
}

unfoldable pub build : CabinetInput → CabinetState
unfolding lifecycle_state order_notice
build i =
    let now = to_aware_utc i.now in
    elim i.subscription [
      | none ↦ shown i no_subscription none none 0
      | some s ↦
          let expires_at = to_aware_utc s.expires_at in
          shown i (lifecycle_state s now) (some expires_at)
            (some (remaining_days_of expires_at now)) s.max_devices
    ]

action_for : LifecycleState → Action
action_for active = add_device
action_for expired = resume
action_for disabled = support
action_for no_subscription = purchase

primary_for : NoticeState → LifecycleState → Action
unfolding action_for
primary_for activation_stuck state = recover_access
primary_for no_notice state = action_for state
primary_for _ state = continue_order

unfoldable pub primary_action : CabinetState → Action
unfolding primary_for
primary_action s = primary_for s.order_notice_state s.subscription_state

seconds_for : LifecycleState → List Action
seconds_for active = devices ∷ renew ∷ more ∷ []
seconds_for expired = devices ∷ support ∷ []
seconds_for _ = how_it_works ∷ support ∷ []

secondary_for : NoticeState → LifecycleState → List Action
unfolding seconds_for
secondary_for payment_pending state = cancel_order ∷ payment_help ∷ []
secondary_for no_notice state = seconds_for state
secondary_for _ state = payment_help ∷ []

unfoldable pub secondary_actions : CabinetState → List Action
unfolding secondary_for
secondary_actions s = secondary_for s.order_notice_state s.subscription_state

-- The two texts of a refusal and the one of a permission are constructors.
pub data RefundReason : Type 0 where
  already_applied not_refundable refundable : RefundReason

unfoldable pub automatic_refund_allowed : OrderStatus → Bool → Bool × RefundReason
automatic_refund_allowed status has_application =
    if has_application
    then (false, already_applied)
    else if is_paid_unapplied status
    then (true, refundable)
    else (false, not_refundable)

unfoldable pub calculate_renewal_valid_until : Option DateTime → ℕ → DateTime → Instant
calculate_renewal_valid_until current duration_days now =
    let at = to_aware_utc now in
    elim current [
      | none ↦ at + days duration_days
      | some existing ↦
          (if ltb at (to_aware_utc existing) then to_aware_utc existing else at)
          + days duration_days
    ]
