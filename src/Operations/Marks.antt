-- ===== src/Operations/Marks.antt =====
-- What a worker records in an operation, its way back from a manual review, and the queries for
-- active operations.
use vpn_mediator_public.Prelude.{
  ℕ, String, Bool, true, false, ◌&&◌, ◌||◌, not, Option, none, some, List, ltb, leb, ◌==◌,
  if◌then◌else◌, str_eq,
}
use vpn_mediator_public.Clock.{Instant, DateTime, to_aware_utc}
use vpn_mediator_public.Table.{select, update_where, count_where, order_by}
use vpn_mediator_public.Operations.{
  pending, external_unknown, external_applied, completed, failed_retriable, superseded,
  manual_review, Operation, is_active, is_manual_review, has_operation_id, has_expired,
}

pub record Intent : Type 0 where
  pub subscription_id : ℕ
  pub expected_version : ℕ
  pub valid_until : DateTime
  pub device_limit : ℕ
  pub status : String

abbrev pub set_intent : Intent → Instant → Operation → Operation
set_intent n now o = record o {
  subscription_id = some n.subscription_id;
  expected_version = some n.expected_version;
  intended_valid_until = some (to_aware_utc n.valid_until);
  requested_device_limit = some n.device_limit;
  requested_status = some n.status;
  updated_at = now;
}

abbrev pub mark_request_sent : Instant → Operation → Operation
mark_request_sent now o = record o {
  state = external_unknown;
  external_request_sent_at = some now;
  updated_at = now;
}

-- What the mediator answered.
pub record ExternalResult : Type 0 where
  pub version : ℕ
  pub status : String
  pub valid_until : DateTime
  pub device_limit : ℕ
  pub applied_at : Option DateTime
  pub public_guid : Option String

abbrev pub mark_external_applied : ExternalResult → Instant → Operation → Operation
mark_external_applied x now o = record o {
  state = external_applied;
  external_result_version = some x.version;
  external_result_status = some x.status;
  external_result_valid_until = some (to_aware_utc x.valid_until);
  external_result_device_limit = some x.device_limit;
  external_subscription_public_guid = elim x.public_guid [
    | none ↦ o.external_subscription_public_guid
    | some guid ↦ some guid
  ];
  external_applied_at = elim x.applied_at [ none ↦ some now | some t ↦ some (to_aware_utc t) ];
  updated_at = now;
}

abbrev pub mark_completed : Instant → Operation → Operation
mark_completed now o = record o {
  state = completed;
  local_commit_completed_at = some now;
  claimed_by = none;
  claim_expires_at = none;
  last_error_code = none;
  updated_at = now;
}

-- An error code is what `[:64]` leaves of it, here and below.
abbrev pub mark_failed_retriable : String → Instant → Operation → Operation
mark_failed_retriable error_code now o = record o {
  state = failed_retriable;
  last_error_code = some error_code;
  last_error_at = some now;
  claimed_by = none;
  claim_expires_at = none;
  updated_at = now;
}

abbrev pub mark_manual_review : String → Instant → Operation → Operation
mark_manual_review error_code now o = record o {
  state = manual_review;
  last_error_code = some error_code;
  last_error_at = some now;
  claimed_by = none;
  claim_expires_at = none;
  updated_at = now;
}

abbrev pub mark_superseded : String → Instant → Operation → Operation
mark_superseded reason now o = record o {
  state = superseded;
  last_error_code = some reason;
  claimed_by = none;
  claim_expires_at = none;
  updated_at = now;
}

abbrev pub same_id : Option ℕ → ℕ → Bool
same_id none i = false
same_id (some j) i = j == i

abbrev pub is_active_for : ℕ → Operation → Bool
is_active_for subscription_id o = same_id o.subscription_id subscription_id && is_active o.state

-- `id != exclude_operation_id`, if one is given.
abbrev pub is_other : Option ℕ → Operation → Bool
is_other none o = true
is_other (some i) o = not (o.id == i)

unfoldable pub has_active_for_subscription : ℕ → Option ℕ → List Operation → Bool
has_active_for_subscription subscription_id exclude t =
    ltb 0 (count_where (λ (o : Operation). is_active_for subscription_id o && is_other exclude o) t)

abbrev pub is_none {ℓ} : {A : Type ℓ} → Option A → Bool
is_none none = true
is_none (some a) = false

abbrev pub is_blocked : Option String → Bool
is_blocked none = false
is_blocked (some code) = str_eq code "reconciliation_blocked"

-- Nothing of the operation has reached the mediator.
abbrev pub is_untouched : Operation → Bool
is_untouched o =
    is_none o.external_request_sent_at
    && is_none o.external_result_version
    && is_none o.external_result_status
    && is_none o.external_result_valid_until
    && is_none o.external_result_device_limit

abbrev pub rearmed : Instant → Operation → Operation
rearmed now o = record o {
  state = pending;
  claimed_by = none;
  claim_expires_at = none;
  last_error_code = none;
  last_error_at = none;
  updated_at = now;
}

-- Another operation of the same subscription is active.
unfoldable pub has_rival : Operation → List Operation → Bool
has_rival o t = elim o.subscription_id [
  | none ↦ false
  | some s ↦ has_active_for_subscription s (some o.id) t
]

-- `rearm_after_reconciliation` of a loaded row of the table.
unfoldable pub rearm_after_reconciliation :
    Operation → Instant → List Operation → List Operation × Bool
rearm_after_reconciliation o now t =
    if is_manual_review o.state
      && is_blocked o.last_error_code
      && is_untouched o
      && not (has_rival o t)
    then (update_where (has_operation_id o.id) (rearmed now) t, true)
    else (t, false)

-- `list_recoverable` selects what is active and not leased, the least recently updated first.
abbrev pub is_stalest : Operation → Operation → Bool
is_stalest o p = ltb o.updated_at p.updated_at || ((o.updated_at == p.updated_at) && leb o.id p.id)

unfoldable pub list_recoverable : Instant → List Operation → List Operation
list_recoverable now t =
    order_by is_stalest
      (select (λ (o : Operation). is_active o.state && has_expired now o.claim_expires_at) t)
