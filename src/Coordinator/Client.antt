-- ===== src/Coordinator/Client.antt =====
-- The requests of the coordinator: `get_entitlement`, `get_entitlement_operation` and
-- `apply_entitlement_operation` of mediator_client.py, and the responses of Program.cs.
use vpn_mediator_public.Prelude.{
  ℕ, String, ◌&&◌, Option, none, some, leb, if◌then◌else◌, Result, ok, err,
}
use vpn_mediator_public.Clock.{Instant}
use vpn_mediator_public.Table.{find}
use vpn_mediator_public.Mediator.{
  Entitlement, OperationRequest, LoggedOperation, Mediator, Platform, has_operation, has_guid,
  is_entitlement_status, Answer, applied, already_applied, idempotency_conflict, version_conflict,
  subscription_not_found, device_limit_decrease, active_devices_exceed, invalid_request,
  apply_operation,
}
use vpn_mediator_public.Coordinator.{Code, Moment, Action, ◌>>=◌, lift, remote}

abbrev pub invalid_response : Code
invalid_response = some "invalid_response"

-- `MediatorEntitlementDetails`, its timestamp parsed.
pub record Details : Type 0 where
  pub version : ℕ
  pub status : String
  pub valid_until : Instant
  pub max_device_tokens : ℕ

-- `_entitlement_details_from_json`
unfoldable pub entitlement_details : Entitlement → Result Code Details
entitlement_details e = elim e.valid_until [
  | none ↦ err invalid_response
  | some t ↦
      if leb 1 e.version && leb 1 e.max_device_tokens && is_entitlement_status e.status
      then ok (record {
        version = e.version;
        status = e.status;
        valid_until = t;
        max_device_tokens = e.max_device_tokens;
      })
      else err invalid_response
]

-- The entitlement of a subscription; without one the response is a 404 with no error code.
abbrev pub entitlement_of : String → Mediator → Option Entitlement
entitlement_of guid m = elim (find (has_guid guid) m.subscriptions) [
  | none ↦ none
  | some s ↦ s.entitlement
]

abbrev pub details_response : Option Entitlement → Result Code Details
details_response none = err none
details_response (some e) = entitlement_details e

-- `_operation_result_from_json`
unfoldable pub operation_result : LoggedOperation → Result Code LoggedOperation
operation_result l =
    if leb 1 l.expected_version && leb 1 l.result_version && leb 1 l.result_max_device_tokens
    then ok l
    else err invalid_response

-- An operation that is not in the log is a 404, which this request takes for an answer.
unfoldable pub operation_response : Option LoggedOperation → Result Code (Option LoggedOperation)
unfolding operation_result
operation_response none = ok none
operation_response (some l) = elim (operation_result l) [
  | ok result ↦ ok (some result)
  | err code ↦ err code
]

-- The status code and error code of each answer, as `_json_or_raise` reads them.
unfoldable pub apply_response : Answer → Result Code LoggedOperation
unfolding operation_result
apply_response (applied l) = operation_result l
apply_response (already_applied l) = operation_result l
apply_response (idempotency_conflict l) = err (some "entitlement_operation_idempotency_conflict")
apply_response (version_conflict current) = err (some "entitlement_operation_version_conflict")
apply_response subscription_not_found = err none
apply_response device_limit_decrease = err (some "device_limit_decrease_not_allowed")
apply_response active_devices_exceed = err (some "active_devices_exceed_new_limit")
apply_response invalid_request = err (some "internal_error")

module _ (platform : Platform) (timeline : ℕ → Moment) where
  unfoldable pub get_entitlement : String → Action Details
  unfolding ◌>>=◌ remote entitlement_details
  get_entitlement guid = do
    found ← remote platform timeline (λ now m. (m, entitlement_of guid m))
    lift (details_response found)

  unfoldable pub get_entitlement_operation : String → Action (Option LoggedOperation)
  unfolding ◌>>=◌ remote operation_response
  get_entitlement_operation operation_id = do
    found ← remote platform timeline (λ now m. (m, find (has_operation operation_id) m.log))
    lift (operation_response found)

  unfoldable pub apply_entitlement_operation : String → OperationRequest → Action LoggedOperation
  unfolding ◌>>=◌ remote apply_operation apply_response
  apply_entitlement_operation guid r = do
    answer ← remote platform timeline (apply_operation platform guid r)
    lift (apply_response answer)
