-- ===== src/Payments/Inbox.antt =====
-- `PaymentInboxRepository` of repositories.py. `hash` stands for SHA-256 and `upper` for
-- `str.upper`; delays are natural numbers, since the code raises them to at least 1.

use vpn_mediator_public.Prelude.{
  ℕ, ◌+◌, String, Bool, true, false, ◌&&◌, Option, none, some, List, [], ◌∷◌, ◌++◌, ◌==◌,
  if◌then◌else◌, str_eq, max,
}
use vpn_mediator_public.Clock.{Instant, seconds}
use vpn_mediator_public.Table.{find, update_where}

-- PAYMENT_INBOX_* of constants.py.
pub data InboxStatus : Type 0 where
  received matched applied manual_review refund_required refunded : InboxStatus

-- The failure codes that the code writes, and any other.
pub data FailureCode : Type 0 where
  provider_charge_evidence_conflict manual_review_required invalid_payer_external_id : FailureCode
  invoice_payload_unavailable order_not_found_or_owner_mismatch : FailureCode
  payment_evidence_mismatch payment_bot_mismatch charge_bound_to_other_order : FailureCode
  payment_for_refunding_order late_payment_for_expired_order invalid_order_state : FailureCode
  other_failure : String → FailureCode

pub record Inbox : Type 0 where
  pub id : ℕ
  pub provider : String
  pub provider_charge_id : String
  pub invoice_payload_hash : String
  pub invoice_payload : Option String
  pub payer_external_id : String
  pub amount_minor_units : ℕ
  pub currency : String
  pub received_at : Instant
  pub provider_occurred_at : Option Instant
  pub origin_bot_key : Option String
  pub payment_bot_key : Option String
  pub matched_order_id : Option ℕ
  pub reconciliation_status : InboxStatus
  pub failure_code : Option FailureCode
  pub attempt_count : ℕ
  pub next_attempt_at : Option Instant
  pub claimed_by : Option String
  pub claim_expires_at : Option Instant
  pub processed_at : Option Instant
  pub updated_at : Instant

-- What a provider reports of one charge: the arguments of `receive`.
pub record Charge : Type 0 where
  pub provider : String
  pub provider_charge_id : String
  pub invoice_payload : String
  pub payer_external_id : String
  pub amount_minor_units : ℕ
  pub currency : String
  pub provider_occurred_at : Option Instant
  pub payment_bot_key : Option String

-- `a or b` on optional texts: an empty text is false.
abbrev pub str_or : Option String → Option String → Option String
str_or none b = b
str_or (some String.[]) b = b
str_or (some a) b = some a

abbrev pub same_opt : Option String → Option String → Bool
same_opt none none = true
same_opt (some a) (some b) = str_eq a b
same_opt _ _ = false

-- `if column is None: column = value`
abbrev pub fill {ℓ} : {A : Type ℓ} → Option A → Option A → Option A
fill none value = value
fill (some a) value = some a

-- (provider, provider_charge_id), the unique key of the table.
abbrev pub has_charge : Charge → Inbox → Bool
has_charge c i = str_eq i.provider c.provider && str_eq i.provider_charge_id c.provider_charge_id

abbrev pub mark_conflict : Instant → Inbox → Inbox
mark_conflict now i = record i {
  reconciliation_status = manual_review;
  failure_code = some provider_charge_evidence_conflict;
  processed_at = some now;
  updated_at = now;
}

abbrev pub fill_evidence : Charge → Instant → Inbox → Inbox
fill_evidence c now i = record i {
  invoice_payload = fill i.invoice_payload (some c.invoice_payload);
  provider_occurred_at = fill i.provider_occurred_at c.provider_occurred_at;
  origin_bot_key = fill i.origin_bot_key c.payment_bot_key;
  payment_bot_key = fill i.payment_bot_key c.payment_bot_key;
  updated_at = now;
}

module _ (hash upper : String → String) where
  abbrev pub inbox_of : ℕ → Charge → Instant → Inbox
  inbox_of id c now = record {
    id = id;
    provider = c.provider;
    provider_charge_id = c.provider_charge_id;
    invoice_payload_hash = hash c.invoice_payload;
    invoice_payload = some c.invoice_payload;
    payer_external_id = c.payer_external_id;
    amount_minor_units = c.amount_minor_units;
    currency = upper c.currency;
    received_at = now;
    provider_occurred_at = c.provider_occurred_at;
    origin_bot_key = c.payment_bot_key;
    payment_bot_key = c.payment_bot_key;
    matched_order_id = none;
    reconciliation_status = received;
    failure_code = none;
    attempt_count = 0;
    next_attempt_at = none;
    claimed_by = none;
    claim_expires_at = none;
    processed_at = none;
    updated_at = now;
  }

  unfoldable pub same_evidence : Charge → Inbox → Bool
  same_evidence c i =
      str_eq i.invoice_payload_hash (hash c.invoice_payload)
      && str_eq i.payer_external_id c.payer_external_id
      && (i.amount_minor_units == c.amount_minor_units)
      && str_eq (upper i.currency) (upper c.currency)
      && same_opt (str_or i.payment_bot_key i.origin_bot_key) c.payment_bot_key

  -- What a repeated charge does to the row of that charge.
  unfoldable pub absorb : Charge → Instant → Inbox → Inbox
  absorb c now i = if same_evidence c i then fill_evidence c now i else mark_conflict now i

  -- `receive`: the table, the row, and whether it was inserted.
  unfoldable pub receive : ℕ → Charge → Instant → List Inbox → List Inbox × Inbox × Bool
  receive id c now t = elim (find (has_charge c) t) [
    | none ↦ (t ++ inbox_of id c now ∷ [], inbox_of id c now, true)
    | some inbox ↦ (update_where (has_charge c) (absorb c now) t, absorb c now inbox, false)
  ]

abbrev pub mark_matched : Instant → ℕ → Inbox → Inbox
mark_matched now order_id i = record i {
  matched_order_id = some order_id;
  reconciliation_status = matched;
  failure_code = none;
  claimed_by = none;
  claim_expires_at = none;
  next_attempt_at = none;
  updated_at = now;
}

abbrev pub mark_applied : Instant → ℕ → Inbox → Inbox
mark_applied now order_id i = record i {
  matched_order_id = some order_id;
  reconciliation_status = applied;
  failure_code = none;
  claimed_by = none;
  claim_expires_at = none;
  next_attempt_at = none;
  processed_at = some now;
  updated_at = now;
}

abbrev pub mark_retry : Instant → FailureCode → ℕ → Inbox → Inbox
mark_retry now code delay_seconds i = record i {
  failure_code = some code;
  claimed_by = none;
  claim_expires_at = none;
  next_attempt_at = some (now + seconds (max delay_seconds 1));
  updated_at = now;
}

abbrev pub mark_manual_review : Instant → FailureCode → Inbox → Inbox
mark_manual_review now code i = record i {
  reconciliation_status = manual_review;
  failure_code = some code;
  claimed_by = none;
  claim_expires_at = none;
  next_attempt_at = none;
  processed_at = some now;
  updated_at = now;
}
