-- ===== src/Coordinator/Plan.antt =====
-- What the coordinator reads from an operation's row and computes for a request: `_from_operation`,
-- `_calculate_valid_until` and the values that `_apply_to_existing` asks for.
use vpn_mediator_public.Prelude.{
  ℕ, ◌+◌, String, Bool, true, false, Option, none, some, ltb, ◌==◌, if◌then◌else◌, str_eq, max,
  Result, ok, err,
}
use vpn_mediator_public.Clock.{Instant, DateTime, aware, to_aware_utc, seconds}
use vpn_mediator_public.Operations.{
  OperationState, claimed, external_applied, local_commit_pending, completed, Operation,
}
use vpn_mediator_public.Operations.Marks.{Intent, ExternalResult}
use vpn_mediator_public.Mediator.{OperationRequest, LoggedOperation}
use vpn_mediator_public.Coordinator.{Code}
use vpn_mediator_public.Coordinator.Client.{Details}

pub record AppliedEntitlement : Type 0 where
  pub public_guid : String
  pub version : ℕ
  pub status : String
  pub valid_until : Instant
  pub max_device_tokens : ℕ
  pub applied_at : Instant

-- The subscription that the operation is applied to.
pub record Target : Type 0 where
  pub subscription_id : ℕ
  pub public_guid : String

-- The keyword arguments of `apply_generic`.
pub record Options : Type 0 where
  pub exact_valid_until : Option DateTime
  pub exact_device_limit : Option ℕ
  pub required_current_version : Option ℕ
  pub allow_stale_observation_supersede : Bool

abbrev pub no_options : Options
no_options = record {
  exact_valid_until = none;
  exact_device_limit = none;
  required_current_version = none;
  allow_stale_observation_supersede = false;
}

abbrev pub or_else {ℓ} : {A : Type ℓ} → Option A → A → A
or_else none b = b
or_else (some a) b = a

-- `_from_operation`; the moment stands in for a missing `external_applied_at_utc`.
unfoldable pub from_operation : Option String → Operation → Instant → Result Code AppliedEntitlement
from_operation guid o now = elim o.external_result_version [
  | none ↦ err (some "operation_result_incomplete")
  | some version ↦ elim o.external_result_status [
    | none ↦ err (some "operation_result_incomplete")
    | some status ↦ elim o.external_result_valid_until [
      | none ↦ err (some "operation_result_incomplete")
      | some valid_until ↦ elim o.external_result_device_limit [
        | none ↦ err (some "operation_result_incomplete")
        | some limit ↦ ok (record {
          public_guid = or_else guid (or_else o.external_subscription_public_guid "");
          version = version;
          status = status;
          valid_until = valid_until;
          max_device_tokens = limit;
          applied_at = or_else o.external_applied_at now;
        })
      ]
    ]
  ]
]

-- `_record_remote_result`, where `_parse_required` has read the validity.
abbrev pub external_result : LoggedOperation → Instant → ExternalResult
external_result l valid_until = record {
  version = l.result_version;
  status = l.result_status;
  valid_until = aware valid_until;
  device_limit = l.result_max_device_tokens;
  applied_at = some (aware l.applied_at);
  public_guid = none;
}

-- `_calculate_valid_until`
unfoldable pub calculate_valid_until : Operation → Details → Option DateTime → Instant → Instant
calculate_valid_until o d exact now = elim exact [
  | some t ↦ to_aware_utc t
  | none ↦
      if ltb 0 o.duration_delta_seconds
      then max d.valid_until now + seconds o.duration_delta_seconds
      else d.valid_until
]

-- The device limit that is asked for: never below the mediator's, unless it is given exactly.
abbrev pub requested_limit : Operation → Details → Option ℕ → ℕ
requested_limit o d (some limit) = limit
requested_limit o d none =
    max d.max_device_tokens (or_else o.requested_device_limit d.max_device_tokens)

abbrev pub requested_status_of : Operation → Details → String
requested_status_of o d = elim o.requested_status [
  | none ↦ d.status
  | some s ↦ if str_eq s "" then d.status else s
]

abbrev pub intent : Operation → Target → Details → Options → Instant → Intent
intent o target d opts now = record {
  subscription_id = target.subscription_id;
  expected_version = d.version;
  valid_until = aware (calculate_valid_until o d opts.exact_valid_until now);
  device_limit = requested_limit o d opts.exact_device_limit;
  status = requested_status_of o d;
}

-- The request that carries the intent.
abbrev pub intent_request : Operation → Intent → OperationRequest
intent_request o n = record {
  operation_id = o.public_id;
  operation_type = o.operation_type;
  expected_version = n.expected_version;
  status = n.status;
  valid_until = some (to_aware_utc n.valid_until);
  max_device_tokens = n.device_limit;
}

abbrev pub has_version : Option ℕ → ℕ → Bool
has_version none v = true
has_version (some required) v = v == required

-- Back to `claimed` for the next round after a version conflict.
abbrev pub reclaim : Code → Instant → Operation → Operation
reclaim code now o = record o { state = claimed; last_error_code = code; updated_at = now }

abbrev pub is_version_conflict : Code → Bool
is_version_conflict none = false
is_version_conflict (some code) = str_eq code "entitlement_operation_version_conflict"

abbrev pub is_recorded : OperationState → Bool
is_recorded external_applied = true
is_recorded local_commit_pending = true
is_recorded _ = false

abbrev pub is_completed : OperationState → Bool
is_completed completed = true
is_completed _ = false

-- The observed validity, if `allow_stale_observation_supersede` is given.
abbrev pub observation : Options → Operation → Option Instant
observation opts o = if opts.allow_stale_observation_supersede then o.observed_valid_until else none
