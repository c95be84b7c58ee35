-- ===== src/Payments/Reconcile.antt =====
-- `PurchaseService.reconcile_payment_inbox_by_id` of services.py, for a row that the inbox holds:
-- payment evidence is matched with the payer's order, checked, and bound to it, or left for manual
-- review.

use vpn_mediator_public.Prelude.{
  ℕ, String, Bool, true, false, ◌&&◌, ◌||◌, not, Option, none, some, List, [], ◌∷◌, ◌++◌, leb, ◌==◌,
  if◌then◌else◌, str_eq, Result, ok, err,
}
use vpn_mediator_public.Prelude.Int.{ℤ}
use vpn_mediator_public.Clock.{Instant}
use vpn_mediator_public.Discounts
use vpn_mediator_public.Discounts.{DiscountError, restore_for_paid_order}
use vpn_mediator_public.Orders.Status
use vpn_mediator_public.Orders.Status.{
  OrderStatus, is_pending, is_paid, is_refund, is_expired_order, allows_activation,
}
use vpn_mediator_public.Orders.Repository.{
  Order, put_order, mark_payment_received, claim_payment_bot, get_by_provider_payment_id,
  get_for_payment_payload_for_user, get_unique_for_payment_payload_hash_for_user,
}
use vpn_mediator_public.Payments.Inbox.{
  InboxStatus, matched, applied, manual_review, FailureCode, manual_review_required,
  invalid_payer_external_id, invoice_payload_unavailable, order_not_found_or_owner_mismatch,
  payment_evidence_mismatch, payment_bot_mismatch, charge_bound_to_other_order,
  payment_for_refunding_order, late_payment_for_expired_order, invalid_order_state, other_failure,
  Inbox, str_or, fill, mark_matched, mark_applied, mark_manual_review,
}

-- The idempotency keys of the two product events, by provider and charge.
pub data EventKey : Type 0 where
  payment_succeeded payment_completed : String → String → EventKey

-- The tables that a reconciliation writes, besides the inbox row itself.
pub record World : Type 0 where
  pub orders : List Order
  pub discounts : Discounts.Store
  pub events : List EventKey

pub record Outcome : Type 0 where
  pub order_id : Option ℕ
  pub needs_activation : Bool
  pub already_paid : Bool
  pub inbox_status : InboxStatus
  pub failure_code : Option FailureCode

pub record Reconciled : Type 0 where
  pub outcome : Outcome
  pub inbox : Inbox
  pub world : World

-- An exception: the transaction is not committed.
pub data Raised : Type 0 where
  no_application : Raised
  discount_error : DiscountError → Raised

abbrev pub Step : Type 0
Step = Result Raised Reconciled

abbrev pub is_manual_review : InboxStatus → Bool
is_manual_review manual_review = true
is_manual_review _ = false

abbrev pub same_event : EventKey → EventKey → Bool
same_event (payment_succeeded p c) (payment_succeeded q d) = str_eq p q && str_eq c d
same_event (payment_completed p c) (payment_completed q d) = str_eq p q && str_eq c d
same_event _ _ = false

abbrev pub has_event : EventKey → List EventKey → Bool
has_event k [] = false
has_event k (e ∷ es) = same_event e k || has_event k es

-- `ProductEventRepository.record` with an idempotency key.
unfoldable pub record_event : EventKey → List EventKey → List EventKey
record_event k es = if has_event k es then es else es ++ k ∷ []

-- Leave the evidence for an operator.
abbrev pub review : Instant → FailureCode → Option ℕ → Inbox → World → Step
review now code order_id inbox w = ok (record {
  outcome = record {
    order_id = order_id;
    needs_activation = false;
    already_paid = false;
    inbox_status = manual_review;
    failure_code = some code;
  };
  inbox = mark_manual_review now code inbox;
  world = w;
})

-- `inbox.failure_code or "manual_review_required"`
abbrev pub code_or_default : Option FailureCode → FailureCode
code_or_default none = manual_review_required
code_or_default (some (other_failure String.[])) = manual_review_required
code_or_default (some code) = code

-- `inbox.provider_occurred_at_utc or inbox.received_at_utc`
abbrev pub occurred_at : Inbox → Instant
occurred_at i = elim i.provider_occurred_at [ none ↦ i.received_at | some t ↦ t ]

-- The payment happened while its checkout was authorized.
unfoldable pub is_authorized_payment : Order → Inbox → Bool
is_authorized_payment o i = elim o.checkout_authorized_at [
  | none ↦ false
  | some from_time ↦ elim o.checkout_authorized_until [
    | none ↦ false
    | some until_time ↦ leb from_time (occurred_at i) && leb (occurred_at i) until_time
  ]
]

-- The order after the payment, or `none` for a state in which no payment is expected.
unfoldable pub bind_payment : Inbox → Order → Option Order
bind_payment i o =
    if is_pending o.status
    then some (mark_payment_received i.provider_charge_id (occurred_at i) o)
    else if allows_activation o.status
    then some (record o {
      provider_payment_id = fill o.provider_payment_id (some i.provider_charge_id);
      paid_at = fill o.paid_at (some (occurred_at i));
    })
    else none

-- The payment is bound, its events are recorded, and the order waits for activation.
unfoldable pub accept : Instant → Inbox → Order → World → Step
accept now i o w = elim (bind_payment i o) [
  | none ↦ review now invalid_order_state (some o.id) i w
  | some bound ↦ ok (record {
    outcome = record {
      order_id = some o.id;
      needs_activation = true;
      already_paid = false;
      inbox_status = matched;
      failure_code = none;
    };
    inbox = mark_matched now o.id i;
    world = record {
      orders = put_order bound w.orders;
      discounts = w.discounts;
      events =
          record_event (payment_completed o.provider i.provider_charge_id)
            (record_event (payment_succeeded o.provider i.provider_charge_id) w.events);
    };
  })
]

-- An expired order is opened again for a payment that was authorized in time.
unfoldable pub reopen : Instant → Inbox → Order → World → Step
reopen now i o w =
    if not (is_authorized_payment o i)
    then review now late_payment_for_expired_order (some o.id) i w
    else elim (restore_for_paid_order o.id now w.discounts) [
      | err e ↦ err (discount_error e)
      | ok restored ↦
          accept now i (record o { status = Status.pending; cancelled_at = none })
            (record w { discounts = restored })
    ]

-- `has_application` says whether the tables of applications and subscriptions hold what
-- `_subscription_for_applied_order` reads.
unfoldable pub settle : (ℕ → Bool) → Instant → Inbox → Order → World → Step
settle has_application now i o w =
    if is_paid o.status
    then (if has_application o.id
        then ok (record {
          outcome = record {
            order_id = some o.id;
            needs_activation = false;
            already_paid = true;
            inbox_status = applied;
            failure_code = none;
          };
          inbox = mark_applied now o.id i;
          world = w;
        })
        else err no_application)
    else if is_refund o.status
    then review now payment_for_refunding_order (some o.id) i w
    else if is_expired_order o.status
    then reopen now i o w
    else accept now i o w

-- The charge may not be bound to another order.
unfoldable pub check_charge : (ℕ → Bool) → Instant → Inbox → Order → World → Step
check_charge has_application now i o w =
    elim (get_by_provider_payment_id o.provider i.provider_charge_id w.orders) [
      | none ↦ settle has_application now i o w
      | some existing ↦
          if existing.id == o.id
          then settle has_application now i o w
          else review now charge_bound_to_other_order (some o.id) i w
    ]

-- The bot that took the payment must be the one that the order is bound to, if any. `normalize`
-- stands for `.strip().lower()`.
unfoldable pub check_bot : (String → String) → (ℕ → Bool) → Instant → Inbox → Order → World → Step
check_bot normalize has_application now i o w = elim (str_or i.payment_bot_key i.origin_bot_key) [
  | none ↦ check_charge has_application now i o w
  | some evidence_bot_key ↦ elim (claim_payment_bot (normalize evidence_bot_key) o w.orders) [
    | none ↦ review now payment_bot_mismatch (some o.id) i w
    | some (claimed, orders) ↦
        check_charge has_application now i claimed (record w { orders = orders })
  ]
]

-- `upper` stands for `str.upper`.
unfoldable pub is_evidence_for : (String → String) → Inbox → Order → Bool
is_evidence_for upper i o =
    str_eq o.provider i.provider
    && (o.amount_minor_units == i.amount_minor_units)
    && str_eq (upper o.currency) (upper i.currency)

-- The payer's order for the evidence; `hash` stands for SHA-256.
unfoldable pub match_order : (String → String) → Inbox → Option ℕ → List Order → Option Order
match_order hash i none orders = none
match_order hash i (some user_id) orders = elim i.invoice_payload [
  | some payload ↦ get_for_payment_payload_for_user payload user_id orders
  | none ↦ get_unique_for_payment_payload_hash_for_user hash i.invoice_payload_hash user_id orders
]

-- What the reconciliation takes from outside: the three text functions above, Python's `int`, which
-- may raise (`none`), the lookup in the table of users, and whether the tables of applications and
-- subscriptions hold what `_subscription_for_applied_order` reads.
pub record Env : Type 0 where
  pub upper : String → String
  pub normalize : String → String
  pub hash : String → String
  pub int : String → Option ℤ
  pub user_of : ℤ → Option ℕ
  pub has_application : ℕ → Bool

module _ (env : Env) where
  open env use {upper, normalize, hash, int, user_of, has_application}

  unfoldable pub check_evidence : Instant → Inbox → Order → World → Step
  check_evidence now i o w =
      if is_evidence_for upper i o
      then check_bot normalize has_application now i o w
      else review now payment_evidence_mismatch (some o.id) i w

  -- `inbox.invoice_payload is None and order is None`, and then `order is None`.
  unfoldable pub reconcile_payer : Instant → Inbox → ℤ → World → Step
  reconcile_payer now i payer w = elim (match_order hash i (user_of payer) w.orders) [
    | none ↦ elim i.invoice_payload [
      | none ↦ review now invoice_payload_unavailable i.matched_order_id i w
      | some payload ↦ review now order_not_found_or_owner_mismatch none i w
    ]
    | some o ↦
        check_evidence now
          (record i { invoice_payload = fill i.invoice_payload (some o.invoice_payload) }) o w
  ]

  -- A row under manual review is left alone.
  unfoldable pub reconcile_payment_inbox : Instant → Inbox → World → Step
  reconcile_payment_inbox now i w =
      if is_manual_review i.reconciliation_status
      then ok (record {
        outcome = record {
          order_id = i.matched_order_id;
          needs_activation = false;
          already_paid = false;
          inbox_status = manual_review;
          failure_code = some (code_or_default i.failure_code);
        };
        inbox = i;
        world = w;
      })
      else elim (int i.payer_external_id) [
        | none ↦ review now invalid_payer_external_id none i w
        | some payer ↦ reconcile_payer now i payer w
      ]
