-- ===== src/Tests/RefundRuns.antt =====
-- The refund of one order.
use vpn_mediator_public.Prelude.{◌≤◌, ◌≡◌, refl, String, true, false, none, some, List, [], ◌∷◌, ok}
use vpn_mediator_public.Orders.Status
use vpn_mediator_public.Orders.Repository.{Order}
use vpn_mediator_public.Refunds.{Refund, create_or_refresh, plan_expired, mark_state, plan_of}
use vpn_mediator_public.Refunds.Preview.{
  Snapshot, Asking, plan_values, preview_refund, refund_target, check_candidate,
  no_application_target,
}
use vpn_mediator_public.Refunds.Confirm.{Confirming, confirm_refund, confirm_plan, confirm_leased}
use vpn_mediator_public.Refunds.Complete.{Completing}
use vpn_mediator_public.Refunds.Calls.{
  RefundCall, preview_call, confirm_call, complete_call, provider_requests, refund_call,
  asks_provider,
}
use vpn_mediator_public.Leases.{acquire}
use vpn_mediator_public.Refunds.Single.{refund_requested_once}
use vpn_mediator_public.Refunds.Expired.{expired_never_requested}

abbrev paid_order : Order
paid_order = record {
  id = 1;
  user_id = 7;
  status = Status.paid;
  provider = "telegram_stars";
  amount_minor_units = 100;
  currency = "XTR";
  invoice_payload = "order:1";
  provider_payment_id = some "charge-1";
  provider_payment_status = none;
  payment_bot_key = none;
  expires_at = none;
  checkout_authorized_at = none;
  checkout_authorized_until = none;
  paid_at = some 500;
  cancelled_at = none;
  completed_at = none;
  activation_attempt_count = 0;
  last_activation_attempt_at = none;
  last_activation_error_code = none;
  next_activation_retry_at = none;
}

abbrev paid_refund : Refund
paid_refund = record {
  order = paid_order;
  terms = record {
    is_purchase = true;
    base_valid_until = none;
    base_max_devices = none;
    owner_key = "refund:1";
    started_key = "refund-started:1";
    completed_key = "refund-completed:1";
    unknown_key = "refund-unknown:1";
  };
  operation = none;
  plan = none;
  reward = none;
  leases = [];
  notices = [];
}

abbrev unapplied : Snapshot
unapplied = record { application = none; subscription = none }

abbrev asking : Asking
asking = record { admin = some 42; token_hash = "hash-1"; ttl_minutes = 10 }

abbrev confirming : Confirming
confirming = record {
  token_hash = "hash-1";
  admin = some 42;
  entitlement_version = none;
  now = 2000;
  notice_id = 1;
}

abbrev completing : Completing
completing = record {
  is_applied = false;
  subscription = none;
  compensation_id = 9;
  compensates = ok tt;
  now = 3000;
  notice_id = 2;
}

abbrev keep_text : String → String
keep_text s = s

abbrev refund_calls : List RefundCall
refund_calls =
    preview_call unapplied asking 1000
    ∷ confirm_call confirming
    ∷ confirm_call confirming
    ∷ complete_call completing
    ∷ preview_call unapplied asking 4000
    ∷ confirm_call confirming
    ∷ []

refund_requested_once_example : provider_requests keep_text refund_calls paid_refund ≤ 1
refund_requested_once_example = refund_requested_once keep_text refund_calls paid_refund

-- The first confirmation does ask the provider.
first_confirmation :
    provider_requests keep_text
      (preview_call unapplied asking 1000 ∷ confirm_call confirming ∷ [])
      paid_refund
    ≡ 1
unfolding provider_requests refund_call asks_provider preview_refund check_candidate refund_target
    create_or_refresh confirm_refund confirm_plan confirm_leased acquire
first_confirmation = refl

abbrev stuck_refund : Refund
stuck_refund = record paid_refund {
  plan = some (
      mark_state plan_expired (some "confirmation_expired") 700000000
        (plan_of (plan_values no_application_target asking 1000) none 1000));
}

expired_never_requested_example : provider_requests keep_text refund_calls stuck_refund ≡ 0
expired_never_requested_example =
    expired_never_requested keep_text refund_calls stuck_refund
      (record { expired = refl; unconfirmed = refl })
