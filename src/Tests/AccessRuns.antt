-- ===== src/Tests/AccessRuns.antt =====
-- Lifecycle, expiration, boundary and cabinet at concrete inputs.
use vpn_mediator_public.Prelude.{
  ℕ, ◌+◌, ◌/◌, ◌≤◌, ◌<◌, ◌≡◌, refl, Bool, true, false, none, some, [], ◌∷◌, ok, err, arith,
}
use vpn_mediator_public.Prelude.Int.{pos, negsuc}
use vpn_mediator_public.Clock.{DateTime, naive, aware, to_aware_utc, days, minutes}
use vpn_mediator_public.Lifecycle
use vpn_mediator_public.Lifecycle.{
  Status, RepairMode, adopt_expired, adopt_disabled, restore_local, ReasonCode, legacy_expiration,
  restored_legacy_expiration, explicit_disabled_adoption, active_entitlement_already_expired,
  ambiguous_disabled_entitlement_origin, expired_entitlement_has_future_validity,
  LifecycleProjection, Observation, project_reconciled_lifecycle, project_disabled,
  lifecycle_matches_authoritative_entitlement, is_expiration_transition_pending,
  is_legacy_expiration_drift, is_disabled,
}
use vpn_mediator_public.Lifecycle.Laws.{project-matches}
use vpn_mediator_public.Expiration.{
  ExpirationSnapshot, TimeZone, Purchase, is_upgrade_devices, legacy_policy,
  calculate_expiration_snapshot, duration_snapshot, end_of_local_day,
}
use vpn_mediator_public.Expiration.Laws.{IsZone, snapshot_grants, legacy-eq-renewal}
use vpn_mediator_public.Pricing.Service.{purchase}
use vpn_mediator_public.Pricing.Options.{Text, split_once}
use vpn_mediator_public.Boundary
use vpn_mediator_public.Boundary.{
  Message, Callback, Update, answered, call_middleware, codes, command_name, first_token,
  is_support_reply, evaluate_update_boundary, evaluate_message, evaluate_group_message,
  notify_private_chat_required,
}
use vpn_mediator_public.Commerce.Cabinet.{CabinetInput, OrderView, calculate_renewal_valid_until}
use vpn_mediator_public.Orders.Status as Orders

abbrev adopted : LifecycleProjection
adopted = record {
  subscription_status = Lifecycle.disabled;
  disabled_at_utc = some 500;
  reason_code = explicit_disabled_adoption;
}

adopted_lem :
    project_reconciled_lifecycle Lifecycle.active Lifecycle.disabled
      (aware 900)
      adopt_disabled
      (aware 500)
    ≡ ok adopted
unfolding project_reconciled_lifecycle project_disabled
adopted_lem = refl

project-matches_example :
    lifecycle_matches_authoritative_entitlement Lifecycle.disabled Lifecycle.disabled
      (aware 900)
      (aware 500)
    ≡ true
project-matches_example =
    project-matches Lifecycle.active Lifecycle.disabled (aware 900) adopt_disabled (aware 500)
      adopted adopted_lem

refused_lem :
    project_reconciled_lifecycle Lifecycle.active Lifecycle.expired
      (aware 900)
      restore_local
      (aware 500)
    ≡ err expired_entitlement_has_future_validity
unfolding project_reconciled_lifecycle
refused_lem = refl

abbrev pending : Observation
pending = record {
  subscription_status = Lifecycle.active;
  subscription_expires_at = naive 400;
  local_status = Lifecycle.active;
  local_version = 3;
  local_valid_until = aware 400;
  local_max_device_tokens = 2;
  remote_status = Lifecycle.active;
  remote_version = 3;
  remote_valid_until = aware 400;
  remote_max_device_tokens = 2;
  now = aware 500;
}

abbrev drifted : Observation
drifted = record pending {
  subscription_status = Lifecycle.expired;
  remote_status = Lifecycle.disabled;
  remote_version = 4;
}

pending_lem : is_expiration_transition_pending pending ≡ true
unfolding is_expiration_transition_pending
pending_lem = refl

drifted_lem : is_legacy_expiration_drift drifted ≡ true
unfolding is_legacy_expiration_drift
drifted_lem = refl

-- UTC as the business time zone.
abbrev utc : TimeZone
utc = record { local_date = λ t. t / 86400000000; midnight = λ d. days d }

utc-IsZone : IsZone utc
utc-IsZone = record {
  next_midnight_later = λ t. omega arith;
  next_midnight_near = λ t. omega arith;
  midnight_starts = λ d. omega arith;
}

-- Thirty days bought on day 10, with access until day 12.
abbrev bought : Purchase
bought = record {
  current_expires_at_utc = some (aware 1036800000000);
  captured_now_utc = aware 864000000001;
  purchased_duration_days = pos 30;
  order_kind = purchase;
  configured_policy_version = "calendar-v2";
  policy_effective_at_utc = aware 0;
}

abbrev bought_early : Purchase
bought_early = record bought { policy_effective_at_utc = aware 964000000000 }

abbrev snapshot : ExpirationSnapshot
snapshot = record {
  base_expires_at_utc = 1036800000000;
  purchased_duration_days = 30;
  expiration_policy_version = "calendar-v2";
  target_expires_at_utc = 3715200000000;
}

abbrev early_snapshot : ExpirationSnapshot
early_snapshot = record snapshot {
  expiration_policy_version = legacy_policy;
  target_expires_at_utc = 3628800000000;
}

snapshot_lem : calculate_expiration_snapshot utc bought ≡ ok snapshot
unfolding calculate_expiration_snapshot duration_snapshot end_of_local_day
snapshot_lem = refl

early_snapshot_lem : calculate_expiration_snapshot utc bought_early ≡ ok early_snapshot
unfolding calculate_expiration_snapshot duration_snapshot end_of_local_day
early_snapshot_lem = refl

snapshot_grants_example :
    (864000000001 ≤ snapshot.base_expires_at_utc)
    × ((current : DateTime)
        → bought.current_expires_at_utc ≡ some current
        → to_aware_utc current ≤ snapshot.base_expires_at_utc)
    × (snapshot.base_expires_at_utc + days 30 ≤ snapshot.target_expires_at_utc)
    × (snapshot.target_expires_at_utc
        ≤ snapshot.base_expires_at_utc + days 30 + days 1 + minutes 60)
    × (is_upgrade_devices purchase ≡ true
        → snapshot.target_expires_at_utc ≡ snapshot.base_expires_at_utc)
    × (is_upgrade_devices purchase ≡ false
        → (0 < snapshot.purchased_duration_days)
          × (pos snapshot.purchased_duration_days ≡ bought.purchased_duration_days))
snapshot_grants_example = snapshot_grants utc utc-IsZone bought snapshot snapshot_lem

legacy-eq-renewal_example :
    early_snapshot.target_expires_at_utc
    ≡ calculate_renewal_valid_until bought_early.current_expires_at_utc 30
        bought_early.captured_now_utc
legacy-eq-renewal_example =
    legacy-eq-renewal utc utc-IsZone bought_early early_snapshot early_snapshot_lem refl
      (omega arith)

-- A text without spaces at its ends, in lower case already.
abbrev no_space : ℕ → Bool
no_space c = false

abbrev same_codes : Text → Text
same_codes t = t

abbrev bounds : Boundary.Settings
bounds = record {
  support_chat_id = some (negsuc 100);
  support_agent_telegram_ids = 5 ∷ [];
  admin_telegram_ids = 9 ∷ [];
}

abbrev broadcast_message : Message
broadcast_message = record {
  is_private = false;
  chat_id = negsuc 7;
  from_user = some 9;
  is_reply = false;
  text = some (codes "/broadcast");
  caption = none;
}

abbrev update_of : Message → Update
update_of m = record {
  has_pre_checkout_query = false;
  callback_query = none;
  message = some m;
  edited_message = none;
}

-- An administrator asks in a group for the orders that wait, which a customer may not.
abbrev orders_message : Message
orders_message = record broadcast_message { text = some (codes "/pending_orders") }

-- A broadcast is refused in a group, even to an administrator.
broadcast_run :
    call_middleware no_space same_codes bounds (some (update_of broadcast_message)) ≡ answered
unfolding call_middleware evaluate_update_boundary evaluate_message evaluate_group_message
    is_support_reply command_name first_token split_once notify_private_chat_required
broadcast_run = refl

abbrev cabinet : CabinetInput
cabinet = record {
  subscription = none;
  latest_order = none;
  trial_available = true;
  trial_retry = false;
  active_device_tokens = none;
  mediator_available = true;
  commerce_available = true;
  now = aware 500;
}

abbrev stuck : OrderView
stuck = record { status = Orders.activation_failed; public_order_id = "o-1"; order_kind = purchase }
