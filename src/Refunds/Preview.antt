-- ===== src/Refunds/Preview.antt =====
-- `get_refund_candidate` and `preview_refund` of services.py: whether an order can be refunded, and
-- what the refund makes of the entitlement.
use vpn_mediator_public.Prelude.{
  ℕ, ◌+◌, String, Bool, true, false, ◌||◌, not, Option, none, some, List, [], ◌∷◌, ltb, ◌==◌,
  if◌then◌else◌, str_eq, max, Result, ok, err, ◌>>◌, raise_if,
}
use vpn_mediator_public.Clock.{Instant, DateTime, to_aware_utc, minutes}
use vpn_mediator_public.Orders.Status
use vpn_mediator_public.Orders.Status.{OrderStatus, status_in}
use vpn_mediator_public.Orders.Repository.{Order}
use vpn_mediator_public.Refunds.{
  RefundTarget, PlanValues, create_once, create_or_refresh, Terms, Refund,
}

-- Why an order is not refunded automatically.
pub data Reason : Type 0 where
  already_refunded refund_in_progress not_telegram_stars not_refundable charge_missing : Reason
  newer_application subscription_missing entitlement_missing entitlement_changed : Reason
  snapshot_incomplete : Reason

-- The application of an order to a subscription; `has_later` is the answer of
-- `has_later_application`.
pub record Application : Type 0 where
  pub has_later : Bool
  pub resulting_version : ℕ
  pub previous_status : Option String
  pub previous_valid_until : Option DateTime
  pub previous_max_devices : Option ℕ

-- A subscription with the version of its entitlement, where there is one.
pub record Holding : Type 0 where
  pub id : ℕ
  pub expires_at : DateTime
  pub max_devices : ℕ
  pub entitlement_version : Option ℕ

-- The application of the order, if any, and the subscription that it names.
pub record Snapshot : Type 0 where
  pub application : Option Application
  pub subscription : Option Holding

-- ORDER_REFUNDABLE_STATUSES
abbrev pub refundable_statuses : List OrderStatus
refundable_statuses =
    Status.payment_received ∷ Status.activating ∷ Status.activation_failed ∷ Status.paid ∷ []

abbrev pub is_refunded : OrderStatus → Bool
is_refunded s = status_in s (Status.refunded ∷ [])

abbrev pub is_refunding : OrderStatus → Bool
is_refunding s = status_in s (Status.refunding ∷ [])

-- `not text`
abbrev pub is_missing : Option String → Bool
is_missing none = true
is_missing (some s) = str_eq s ""

abbrev pub later_application : Option Application → Bool
later_application none = false
later_application (some a) = a.has_later

-- `get_refund_candidate`, where `upper` is `str.upper`.
unfoldable pub check_candidate : (String → String) → Order → Snapshot → Result Reason (Unit {0})
check_candidate upper o s =
    raise_if (is_refunded o.status) already_refunded
    >> raise_if (is_refunding o.status) refund_in_progress
    >> raise_if
        (not (str_eq o.provider "telegram_stars" || str_eq o.provider "telegram_payments")
          || not (str_eq (upper o.currency) "XTR"))
        not_telegram_stars
    >> raise_if (not (status_in o.status refundable_statuses)) not_refundable
    >> raise_if (is_missing o.provider_payment_id) charge_missing
    >> raise_if (later_application s.application) newer_application

abbrev text_or : Option String → String → String
text_or none b = b
text_or (some a) b = if str_eq a "" then b else a

-- `a or b`, where 0 counts as missing.
abbrev number_or : Option ℕ → Option ℕ → Option ℕ
number_or none b = b
number_or (some a) b = if a == 0 then b else some a

abbrev time_or : Option DateTime → Option Instant → Option Instant
time_or none b = b
time_or (some t) b = some (to_aware_utc t)

-- A purchase is undone by disabling the subscription.
abbrev pub purchase_target : Application → Holding → ℕ → RefundTarget
purchase_target a h version = record {
  subscription_id = some h.id;
  expected_version = some version;
  previous_status = some (text_or a.previous_status "disabled");
  previous_valid_until = time_or a.previous_valid_until none;
  previous_max_devices = a.previous_max_devices;
  target_status = "disabled";
  target_valid_until = some (to_aware_utc h.expires_at);
  target_max_devices = some h.max_devices;
}

-- Any other order is undone by going back to what was before it.
abbrev pub earlier_target : Application → Holding → ℕ → Instant → Instant → ℕ → RefundTarget
earlier_target a h version now valid_until devices =
    let status = text_or a.previous_status (if ltb now valid_until then "active" else "expired") in
    record {
      subscription_id = some h.id;
      expected_version = some version;
      previous_status = some status;
      previous_valid_until = some valid_until;
      previous_max_devices = some devices;
      target_status = status;
      target_valid_until = some valid_until;
      target_max_devices = some devices;
    }

abbrev pub no_application_target : RefundTarget
no_application_target = record {
  subscription_id = none;
  expected_version = none;
  previous_status = none;
  previous_valid_until = none;
  previous_max_devices = none;
  target_status = "disabled";
  target_valid_until = none;
  target_max_devices = none;
}

abbrev pub applied_target : Terms → Application → Holding → ℕ → Instant → Result Reason RefundTarget
applied_target terms a h version now =
    if terms.is_purchase
    then ok (purchase_target a h version)
    else elim (time_or a.previous_valid_until terms.base_valid_until) [
      | none ↦ err snapshot_incomplete
      | some valid_until ↦ elim (number_or a.previous_max_devices terms.base_max_devices) [
        | none ↦ err snapshot_incomplete
        | some devices ↦ ok (earlier_target a h version now valid_until devices)
      ]
    ]

-- The target of `preview_refund`.
unfoldable pub refund_target : Terms → Snapshot → Instant → Result Reason RefundTarget
refund_target terms s now = elim s.application [
  | none ↦ ok no_application_target
  | some a ↦ elim s.subscription [
    | none ↦ err subscription_missing
    | some h ↦ elim h.entitlement_version [
      | none ↦ err entitlement_missing
      | some version ↦
          if version == a.resulting_version
          then applied_target terms a h version now
          else err entitlement_changed
    ]
  ]
]

-- Who asks, the hash of the token that is made for them, and how long it is good for.
pub record Asking : Type 0 where
  pub admin : Option ℕ
  pub token_hash : String
  pub ttl_minutes : ℕ

abbrev pub plan_values : RefundTarget → Asking → Instant → PlanValues
plan_values target q now = record {
  target = target;
  token_hash = q.token_hash;
  expires_at = now + minutes (max q.ttl_minutes 1);
  admin = q.admin;
}

abbrev pub prepared_refund : RefundTarget → Asking → Instant → Refund → Refund
prepared_refund target q now r = record r {
  operation = some (create_once target.subscription_id now r.operation);
  plan = some (create_or_refresh (plan_values target q now) now r.plan);
}

-- `preview_refund`: the rows after it, and why the order is not eligible.
unfoldable pub preview_refund :
    (String → String) → Snapshot → Asking → Instant → Refund → Refund × Option Reason
unfolding check_candidate refund_target create_or_refresh
preview_refund upper s q now r =
    elim (check_candidate upper r.order s >> refund_target r.terms s now) [
      | err reason ↦ (r, some reason)
      | ok target ↦ (prepared_refund target q now r, none)
    ]
