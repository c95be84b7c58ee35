-- ===== src/Tests/PaymentRuns.antt =====
-- Payment evidence at concrete inputs: one pending order of 100 Stars, and charges for it.
use vpn_mediator_public.Prelude.{
  ◌+◌, inr, arith, List, ℕ, String, ◌≡◌, refl, true, false, Option, none, some, [], ◌∷◌, ok, ◌==◌,
  if◌then◌else◌,
}
use vpn_mediator_public.Prelude.Int.{ℤ, pos, pos_part}
use vpn_mediator_public.Clock.{seconds}
use vpn_mediator_public.Table.{find}
use vpn_mediator_public.Orders.Status
use vpn_mediator_public.Orders.Repository.{
  Order, get_for_payment_payload_for_user, claim_payment_bot, get_by_provider_payment_id,
}
use vpn_mediator_public.Payments.Inbox.{
  InboxStatus, manual_review, payment_evidence_mismatch, Inbox, Charge, inbox_of,
}
use vpn_mediator_public.Payments.Reconcile.{
  Env, World, Reconciled, payment_succeeded, payment_completed, record_event, is_evidence_for,
  bind_payment, accept, settle, check_charge, check_bot, check_evidence, reconcile_payer,
  reconcile_payment_inbox, match_order,
}
use vpn_mediator_public.Payments.Safety.{payment_safe}
use vpn_mediator_public.Payments.Bound.{IsBound, IsFree}
use vpn_mediator_public.Payments.Frame.{IsKept, refused_payment-IsKept}
use vpn_mediator_public.Payments.Claims.{claim_evidence, has_inbox_id, Claim, claims, claims_leave}

abbrev same_text : String → String
same_text s = s

abbrev known_user : ℤ → Option ℕ
known_user n = if pos_part n == 42 then some 7 else none

abbrev read_42 : String → Option ℤ
read_42 s = some (pos 42)

abbrev env : Env
env = record {
  upper = same_text;
  normalize = same_text;
  hash = same_text;
  int = read_42;
  user_of = known_user;
  has_application = λ i. true;
}

abbrev order : Order
order = record {
  id = 1;
  user_id = 7;
  status = Status.pending;
  provider = "telegram_stars";
  amount_minor_units = 100;
  currency = "XTR";
  invoice_payload = "order:1";
  provider_payment_id = none;
  provider_payment_status = none;
  payment_bot_key = none;
  expires_at = none;
  checkout_authorized_at = none;
  checkout_authorized_until = none;
  paid_at = none;
  cancelled_at = none;
  completed_at = none;
  activation_attempt_count = 0;
  last_activation_attempt_at = none;
  last_activation_error_code = none;
  next_activation_retry_at = none;
}

abbrev world : World
world = record {
  orders = order ∷ [];
  discounts = record { discounts = []; redemptions = [] };
  events = [];
}

abbrev charge : Charge
charge = record {
  provider = "telegram_stars";
  provider_charge_id = "charge-1";
  invoice_payload = "order:1";
  payer_external_id = "42";
  amount_minor_units = 100;
  currency = "XTR";
  provider_occurred_at = none;
  payment_bot_key = some "main";
}

abbrev cheap_charge : Charge
cheap_charge = record charge { amount_minor_units = 1 }

abbrev evidence : Inbox
evidence = inbox_of same_text same_text 5 charge 1000

abbrev cheap_evidence : Inbox
cheap_evidence = inbox_of same_text same_text 5 cheap_charge 1000

abbrev paid_run : Reconciled
paid_run = record {
  outcome = record {
    order_id = some 1;
    needs_activation = true;
    already_paid = false;
    inbox_status = InboxStatus.matched;
    failure_code = none;
  };
  inbox = record evidence {
    matched_order_id = some 1;
    reconciliation_status = InboxStatus.matched;
    updated_at = 2000;
  };
  world = record {
    orders =
        record order {
          status = Status.payment_received;
          provider_payment_id = some "charge-1";
          payment_bot_key = some "main";
          paid_at = some 1000;
        }
        ∷ [];
    discounts = record { discounts = []; redemptions = [] };
    events =
        payment_succeeded "telegram_stars" "charge-1"
        ∷ payment_completed "telegram_stars" "charge-1"
        ∷ [];
  };
}

paid_run_lem : reconcile_payment_inbox env 2000 evidence world ≡ ok paid_run
unfolding reconcile_payment_inbox reconcile_payer check_evidence check_bot check_charge settle
    accept bind_payment is_evidence_for match_order get_for_payment_payload_for_user
    claim_payment_bot get_by_provider_payment_id record_event
paid_run_lem = refl

payment_safe_example :
    (payer : ℤ) × (o : Order) × (read_42 "42" ≡ some payer)
    × (known_user payer ≡ some o.user_id)
    × (match_order same_text evidence (known_user payer) world.orders ≡ some o)
    × (is_evidence_for same_text evidence o ≡ true)
    × IsBound evidence o world paid_run
    × IsFree o evidence world.orders
payment_safe_example = payment_safe env 2000 evidence world paid_run paid_run_lem refl

abbrev cheap_run : Reconciled
cheap_run = record {
  outcome = record {
    order_id = some 1;
    needs_activation = false;
    already_paid = false;
    inbox_status = manual_review;
    failure_code = some payment_evidence_mismatch;
  };
  inbox = record cheap_evidence {
    reconciliation_status = manual_review;
    failure_code = some payment_evidence_mismatch;
    processed_at = some 2000;
    updated_at = 2000;
  };
  world = world;
}

cheap_run_lem : reconcile_payment_inbox env 2000 cheap_evidence world ≡ ok cheap_run
unfolding reconcile_payment_inbox reconcile_payer check_evidence is_evidence_for match_order
    get_for_payment_payload_for_user
cheap_run_lem = refl

refused_payment-IsKept_example : IsKept world cheap_run
refused_payment-IsKept_example =
    refused_payment-IsKept env 2000 cheap_evidence world cheap_run cheap_run_lem refl

abbrev claimed_evidence : Inbox
claimed_evidence = claim_evidence "worker-a" 60 2000 evidence

abbrev later_claims : List Claim
later_claims = record { worker = "worker-b"; limit = 20; lease_seconds = 60; at = 3000 } ∷ []

claims_leave_example :
    find (has_inbox_id 5) (claims later_claims (claimed_evidence ∷ [])) ≡ some claimed_evidence
claims_leave_example =
    claims_leave later_claims 5 (claimed_evidence ∷ []) claimed_evidence refl
      (inr (2000 + seconds 60, refl, (omega arith, tt)))
