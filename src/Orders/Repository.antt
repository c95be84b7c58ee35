-- ===== src/Orders/Repository.antt =====
-- `OrderRepository` of repositories.py: the columns of an order that payment and activation change,
-- and the operations that change them. A loaded order is a row; writing its attributes is writing
-- the row with its id.

use vpn_mediator_public.Prelude.{
  ℕ, ◌+◌, String, Bool, true, false, ◌&&◌, Option, none, some, List, ltb, leb, ◌==◌, if◌then◌else◌,
  str_eq,
}
use vpn_mediator_public.Clock.{Instant, minutes}
use vpn_mediator_public.Table.{find, update_where, count_where}
use vpn_mediator_public.Orders.Status.{
  OrderStatus, payment_received, activating, paid, activation_failed, failed, refunded, cancelled,
  expired, is_pending, is_activating, status_in,
}

pub record Order : Type 0 where
  pub id : ℕ
  pub user_id : ℕ
  pub status : OrderStatus
  pub provider : String
  pub amount_minor_units : ℕ
  pub currency : String
  pub invoice_payload : String
  pub provider_payment_id : Option String
  pub provider_payment_status : Option String
  pub payment_bot_key : Option String
  pub expires_at : Option Instant
  pub checkout_authorized_at : Option Instant
  pub checkout_authorized_until : Option Instant
  pub paid_at : Option Instant
  pub cancelled_at : Option Instant
  pub completed_at : Option Instant
  pub activation_attempt_count : ℕ
  pub last_activation_attempt_at : Option Instant
  pub last_activation_error_code : Option String
  pub next_activation_retry_at : Option Instant

abbrev pub has_order_id : ℕ → Order → Bool
has_order_id i o = o.id == i

-- The attributes of a loaded order, flushed to its row.
abbrev pub put_order : Order → List Order → List Order
put_order o t = update_where (has_order_id o.id) (λ _. o) t

unfoldable pub get_by_id : ℕ → List Order → Option Order
get_by_id i t = find (has_order_id i) t

unfoldable pub get_for_payment_payload_for_user : String → ℕ → List Order → Option Order
get_for_payment_payload_for_user payload user_id t =
    find (λ (o : Order). str_eq o.invoice_payload payload && (o.user_id == user_id)) t

-- `hash` stands for SHA-256; exactly one order of the user may match.
unfoldable pub get_unique_for_payment_payload_hash_for_user :
    (String → String) → String → ℕ → List Order → Option Order
get_unique_for_payment_payload_hash_for_user hash payload_hash user_id t =
    let p = λ (o : Order). (o.user_id == user_id) && str_eq (hash o.invoice_payload) payload_hash in
    if count_where p t == 1 then find p t else none

unfoldable pub get_by_provider_payment_id : String → String → List Order → Option Order
get_by_provider_payment_id provider charge t =
    find
      (λ (o : Order).
        str_eq o.provider provider
        && elim o.provider_payment_id [ none ↦ false | some c ↦ str_eq c charge ])
      t

-- `payment_bot_key IS NULL OR payment_bot_key = normalized`
abbrev pub accepts_bot : String → Order → Bool
accepts_bot bot o = elim o.payment_bot_key [ none ↦ true | some b ↦ str_eq b bot ]

-- `claim_payment_bot`, for the key after `.strip().lower()`: the order and the table, or `none` for
-- a refusal.
unfoldable pub claim_payment_bot : String → Order → List Order → Option (Order × List Order)
claim_payment_bot String.[] o t = none
claim_payment_bot bot o t =
    let p = λ (r : Order). has_order_id o.id r && accepts_bot bot r in
    if count_where p t == 1
    then some (
      record o { payment_bot_key = some bot },
      update_where p (λ r. record r { payment_bot_key = some bot }) t,
    )
    else none

abbrev pub mark_payment_received : String → Instant → Order → Order
mark_payment_received charge paid_at o = record o {
  status = payment_received;
  provider_payment_id = some charge;
  paid_at = some paid_at;
}

-- The UPDATE of `try_mark_checkout_authorized` and its row count.
unfoldable pub try_mark_checkout_authorized : ℕ → Instant → Instant → List Order → List Order × Bool
try_mark_checkout_authorized i authorized_at authorized_until t =
    let p = λ (o : Order).
      has_order_id i o
      && is_pending o.status
      && elim o.expires_at [ none ↦ true | some e ↦ ltb authorized_at e ] in
    (
      update_where p
          (λ o. record o {
            checkout_authorized_at = some authorized_at;
            checkout_authorized_until = some authorized_until;
          })
          t,
      count_where p t == 1,
    )

abbrev pub mark_complimentary_ready : Order → Order
mark_complimentary_ready o = record o {
  status = payment_received;
  provider_payment_id = none;
  paid_at = none;
}

abbrev pub mark_activating : Instant → Order → Order
mark_activating now o = record o {
  status = activating;
  activation_attempt_count = o.activation_attempt_count + 1;
  last_activation_attempt_at = some now;
  last_activation_error_code = none;
  next_activation_retry_at = none;
}

-- `mark_paid`; a charge is given for manual payments.
unfoldable pub mark_paid : Instant → Option String → Order → Order
mark_paid now charge o = record o {
  status = paid;
  completed_at = some now;
  last_activation_error_code = none;
  next_activation_retry_at = none;
  provider_payment_id = elim charge [ none ↦ o.provider_payment_id | some c ↦ some c ];
  paid_at = elim o.paid_at [
    | some t ↦ some t
    | none ↦ if ltb 0 o.amount_minor_units then some now else none
  ];
}

-- `error_code` is what `[:64]` leaves of it.
abbrev pub mark_activation_failed : Instant → String → Order → Order
mark_activation_failed now error_code o = record o {
  status = activation_failed;
  last_activation_error_code = some error_code;
  next_activation_retry_at = some (now + minutes 1);
}

abbrev pub mark_failed : Order → Order
mark_failed o = record o { status = failed }

abbrev pub mark_refunded : Order → Order
mark_refunded o = record o { status = refunded }

abbrev pub mark_expired : Instant → Order → Order
mark_expired now o = record o { status = expired; cancelled_at = some now }

-- `update_provider_payment_status`; `is_canceled` is `status == "canceled"`.
unfoldable pub update_provider_payment_status : Instant → String → Order → Order
update_provider_payment_status now status o =
    if str_eq status "canceled" && is_pending o.status
    then record o {
      provider_payment_status = some status;
      status = cancelled;
      cancelled_at = some now;
    }
    else record o { provider_payment_status = some status }

-- The values that `transition_status` sets.
abbrev pub moved_to : Instant → OrderStatus → Order → Order
moved_to now next o =
    if is_activating next then mark_activating now o else record o { status = next }

-- `transition_status`: a compare-and-set on the status.
unfoldable pub transition_status :
    ℕ → List OrderStatus → OrderStatus → Instant → List Order → List Order × Bool
transition_status i expected next now t =
    let p = λ (o : Order). has_order_id i o && status_in o.status expected in
    (update_where p (moved_to now next) t, count_where p t == 1)

-- The candidates of `list_activation_candidates`, before ORDER BY and LIMIT.
abbrev pub is_activation_candidate : Instant → Order → Bool
is_activation_candidate now o = candidate o.status
  where
    candidate : OrderStatus → Bool
    candidate payment_received = true
    candidate activation_failed = elim o.next_activation_retry_at [
      | none ↦ true
      | some t ↦ leb t now
    ]
    candidate _ = false
