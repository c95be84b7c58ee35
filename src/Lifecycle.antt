-- ===== src/Lifecycle.antt =====
-- entitlement_lifecycle.py: the local subscription status that an authoritative entitlement
-- prescribes. A status string is a constructor, and `other` is any string that the code does not
-- name.
pub mod Laws
use vpn_mediator_public.Prelude.{
  ℕ, ◌+◌, String, Bool, true, false, ◌&&◌, ◌||◌, not, Option, none, some, ltb, leb, ◌==◌,
  if◌then◌else◌, Result, ok, err,
}
use vpn_mediator_public.Clock.{Instant, DateTime, to_aware_utc}

-- SUBSCRIPTION_STATUS_* and ENTITLEMENT_STATUS_*, which are the same three strings.
pub data Status : Type 0 where
  active disabled expired : Status
  other : String → Status

abbrev pub is_active : Status → Bool
is_active active = true
is_active _ = false

abbrev pub is_expired : Status → Bool
is_expired expired = true
is_expired _ = false

abbrev pub is_disabled : Status → Bool
is_disabled disabled = true
is_disabled _ = false

pub data RepairMode : Type 0 where
  adopt_expired adopt_disabled restore_local : RepairMode
  other_mode : String → RepairMode

pub data ReasonCode : Type 0 where
  active_entitlement expired_entitlement legacy_expiration : ReasonCode
  explicit_disabled_adoption restored_legacy_expiration restored_disabled_entitlement : ReasonCode

-- The texts of the `ValueError`s.
pub data LifecycleError : Type 0 where
  active_entitlement_already_expired expired_entitlement_has_future_validity : LifecycleError
  unsupported_entitlement_status legacy_expiration_requires_expired_subscription : LifecycleError
  legacy_expiration_has_future_validity expired_subscription_has_future_validity : LifecycleError
  ambiguous_disabled_entitlement_origin : LifecycleError

pub record LifecycleProjection : Type 0 where
  pub subscription_status : Status
  pub disabled_at_utc : Option Instant
  pub reason_code : ReasonCode

abbrev pub Projected : Type 0
Projected = Result LifecycleError LifecycleProjection

abbrev projected : Status → Option Instant → ReasonCode → Projected
projected status at reason =
    ok (record { subscription_status = status; disabled_at_utc = at; reason_code = reason })

-- The branches for a disabled entitlement, by the repair mode.
unfoldable pub project_disabled : RepairMode → Status → Instant → Instant → Projected
project_disabled adopt_expired current valid_until now =
    if not (is_expired current)
    then err legacy_expiration_requires_expired_subscription
    else if ltb now valid_until
    then err legacy_expiration_has_future_validity
    else projected expired none legacy_expiration
project_disabled adopt_disabled current valid_until now =
    projected disabled (some now) explicit_disabled_adoption
project_disabled restore_local current valid_until now =
    if is_expired current
    then (if ltb now valid_until
        then err expired_subscription_has_future_validity
        else projected expired none restored_legacy_expiration)
    else if is_disabled current
    then projected disabled (some now) restored_disabled_entitlement
    else err ambiguous_disabled_entitlement_origin
project_disabled (other_mode mode) current valid_until now =
    err ambiguous_disabled_entitlement_origin

project_at : Status → Status → RepairMode → Instant → Instant → Projected
unfolding project_disabled
project_at current active mode valid_until now =
    if leb valid_until now
    then err active_entitlement_already_expired
    else projected active none active_entitlement
project_at current expired mode valid_until now =
    if ltb now valid_until
    then err expired_entitlement_has_future_validity
    else projected expired none expired_entitlement
project_at current disabled mode valid_until now = project_disabled mode current valid_until now
project_at current (other status) mode valid_until now = err unsupported_entitlement_status

unfoldable pub project_reconciled_lifecycle :
    Status → Status → DateTime → RepairMode → DateTime → Projected
unfolding project_at
project_reconciled_lifecycle current entitlement_status valid_until_utc repair_mode now_utc =
    project_at current entitlement_status repair_mode (to_aware_utc valid_until_utc)
      (to_aware_utc now_utc)

unfoldable pub lifecycle_matches_authoritative_entitlement :
    Status → Status → DateTime → DateTime → Bool
lifecycle_matches_authoritative_entitlement subscription active valid_until now =
    is_active subscription && ltb (to_aware_utc now) (to_aware_utc valid_until)
lifecycle_matches_authoritative_entitlement subscription expired valid_until now =
    is_expired subscription && leb (to_aware_utc valid_until) (to_aware_utc now)
lifecycle_matches_authoritative_entitlement subscription disabled valid_until now =
    (is_disabled subscription || is_expired subscription)
    && (not (is_expired subscription) || leb (to_aware_utc valid_until) (to_aware_utc now))
lifecycle_matches_authoritative_entitlement subscription (other status) valid_until now = false

-- The arguments that describe the local rows and the mediator's answer.
pub record Observation : Type 0 where
  pub subscription_status : Status
  pub subscription_expires_at : DateTime
  pub local_status : Status
  pub local_version : ℕ
  pub local_valid_until : DateTime
  pub local_max_device_tokens : ℕ
  pub remote_status : Status
  pub remote_version : ℕ
  pub remote_valid_until : DateTime
  pub remote_max_device_tokens : ℕ
  pub now : DateTime

-- `subscription_expires_at == local_valid_until == remote_valid_until`
same_deadline : Observation → Bool
same_deadline o =
    (to_aware_utc o.subscription_expires_at == to_aware_utc o.local_valid_until)
    && (to_aware_utc o.local_valid_until == to_aware_utc o.remote_valid_until)

unfoldable pub is_expiration_transition_pending : Observation → Bool
unfolding same_deadline
is_expiration_transition_pending o =
    is_active o.subscription_status
    && leb (to_aware_utc o.subscription_expires_at) (to_aware_utc o.now)
    && is_active o.local_status
    && is_active o.remote_status
    && same_deadline o

unfoldable pub is_legacy_expiration_drift : Observation → Bool
unfolding same_deadline
is_legacy_expiration_drift o =
    is_expired o.subscription_status
    && leb (to_aware_utc o.subscription_expires_at) (to_aware_utc o.now)
    && is_active o.local_status
    && is_disabled o.remote_status
    && (o.remote_version == (o.local_version + 1))
    && same_deadline o
    && (o.local_max_device_tokens == o.remote_max_device_tokens)
