-- ===== src/Mediator.antt =====
-- The mediator's side of an entitlement: the entitlement of each subscription and the durable log
-- of operations, `CreateMediatedSubscriptionAsync`, `ApplyEntitlementOperationAsync` and
-- `ApplyEntitlementAsync` of MediatorStorage.cs.
-- One call is one transaction under the write lock, so it is one step here.
pub mod Calls
pub mod Log
pub mod Created
pub mod Recreated
pub mod Served
pub mod Replay
use vpn_mediator_public.Prelude.{
  ℕ, ◌+◌, ◌≡◌, String, Bool, true, false, ◌&&◌, ◌||◌, not, Option, none, some, List, [], ◌∷◌, ◌++◌,
  ltb, leb, ◌==◌, if◌then◌else◌, str_eq,
}
use vpn_mediator_public.Clock.{Instant}
use vpn_mediator_public.Table.{find, update_where, count_where}

-- `EntitlementUpdateRequest`, and a row of `entitlement_mirrors`.
pub record Entitlement : Type 0 where
  pub version : ℕ
  pub status : String
  pub valid_until : Option Instant
  pub max_device_tokens : ℕ

-- A subscription with its entitlement, if it has one, and the number of its active device tokens.
pub record MediatedSubscription : Type 0 where
  pub public_guid : String
  pub external_request_id : Option String
  pub entitlement : Option Entitlement
  pub active_device_tokens : ℕ

-- `EntitlementOperationRequest`
pub record OperationRequest : Type 0 where
  pub operation_id : String
  pub operation_type : String
  pub expected_version : ℕ
  pub status : String
  pub valid_until : Option Instant
  pub max_device_tokens : ℕ

-- A row of `entitlement_operations`.
pub record LoggedOperation : Type 0 where
  pub operation_id : String
  pub public_guid : String
  pub operation_type : String
  pub request_fingerprint : String
  pub expected_version : ℕ
  pub result_version : ℕ
  pub result_status : String
  pub result_valid_until : Option Instant
  pub result_max_device_tokens : ℕ
  pub applied_at : Instant

pub record Mediator : Type 0 where
  pub subscriptions : List MediatedSubscription
  pub log : List LoggedOperation

-- What the platform provides: the hash over the normalised request, the syntax checks on an
-- operation's id (a regular expression) and type (white space), the test for white space, and the
-- text "subscription-creation:" with a guid in its format "N".
pub record Platform : Type 0 where
  pub fingerprint : String → OperationRequest → String
  pub accepts_operation_id : String → Bool
  pub accepts_operation_type : String → Bool
  pub is_blank : String → Bool
  pub creation_id : String → String

-- EntitlementStatuses.All
abbrev pub is_entitlement_status : String → Bool
is_entitlement_status s = str_eq s "active" || str_eq s "disabled" || str_eq s "expired"

-- `ValidateEntitlement`, which throws where this is false.
abbrev pub is_valid_entitlement : Entitlement → Bool
is_valid_entitlement e =
    leb 1 e.version
    && is_entitlement_status e.status
    && leb 1 e.max_device_tokens
    && leb e.max_device_tokens 100

-- What the request asks for, as the version after `version`. A valid request expects a version below
-- the greatest `long`, so the sum does not wrap where the request is applied.
abbrev pub requested : OperationRequest → ℕ → Entitlement
requested r version = record {
  version = version + 1;
  status = r.status;
  valid_until = r.valid_until;
  max_device_tokens = r.max_device_tokens;
}

-- The greatest `long`.
abbrev pub max_version : ℕ
max_version = 9223372036854775807

-- `ValidateEntitlementOperation`, the same way. The version after the greatest `long` wraps to a
-- negative one, which `ValidateEntitlement` refuses.
abbrev pub is_valid_operation : Platform → OperationRequest → Bool
is_valid_operation platform r =
    platform.accepts_operation_id r.operation_id
    && platform.accepts_operation_type r.operation_type
    && leb 1 r.expected_version
    && ltb r.expected_version max_version
    && is_valid_entitlement (requested r r.expected_version)

-- `EntitlementOperationStatus` with what the result carries, and the exception of the validation.
pub data Answer : Type 0 where
  applied already_applied idempotency_conflict : (logged : LoggedOperation) → Answer
  version_conflict : (current_version : Option ℕ) → Answer
  subscription_not_found device_limit_decrease active_devices_exceed invalid_request : Answer

-- The entry of the log that an answer carries.
abbrev pub entry_of : Answer → Option LoggedOperation
entry_of (applied l) = some l
entry_of (already_applied l) = some l
entry_of (idempotency_conflict l) = some l
entry_of _ = none

abbrev pub has_operation : String → LoggedOperation → Bool
has_operation i l = str_eq l.operation_id i

abbrev pub has_guid : String → MediatedSubscription → Bool
has_guid guid s = str_eq s.public_guid guid

abbrev pub logged_operation : Platform → String → OperationRequest → ℕ → Instant → LoggedOperation
logged_operation platform guid r version now = record {
  operation_id = r.operation_id;
  public_guid = guid;
  operation_type = r.operation_type;
  request_fingerprint = platform.fingerprint guid r;
  expected_version = r.expected_version;
  result_version = version + 1;
  result_status = r.status;
  result_valid_until = r.valid_until;
  result_max_device_tokens = r.max_device_tokens;
  applied_at = now;
}

abbrev pub put_entitlement : Entitlement → MediatedSubscription → MediatedSubscription
put_entitlement e s = record s { entitlement = some e }

-- The guards on the current entitlement, in their order; no answer lets the request through.
abbrev pub refusal : OperationRequest → MediatedSubscription → Entitlement → Option Answer
refusal r s current =
    if not (current.version == r.expected_version)
    then some (version_conflict (some current.version))
    else if ltb r.max_device_tokens current.max_device_tokens
    then some device_limit_decrease
    else if ltb r.max_device_tokens s.active_device_tokens
    then some active_devices_exceed
    else none

-- The transaction that applies a request: the new entitlement and its entry in the log.
abbrev pub commit_operation :
    Platform → OperationRequest → ℕ → Instant → MediatedSubscription → Mediator → Mediator
commit_operation platform r version now s m = record {
  subscriptions =
      update_where (has_guid s.public_guid) (put_entitlement (requested r version)) m.subscriptions;
  log = m.log ++ logged_operation platform s.public_guid r version now ∷ [];
}

-- A request with a new id, on the subscription that the guid names.
unfoldable pub apply_new :
    Platform → OperationRequest → Instant → Mediator → MediatedSubscription → Mediator × Answer
apply_new platform r now m s = elim s.entitlement [
  | none ↦ (m, version_conflict none)
  | some current ↦ elim (refusal r s current) [
    | some answer ↦ (m, answer)
    | none ↦ (
      commit_operation platform r current.version now s m,
      applied (logged_operation platform s.public_guid r current.version now),
    )
  ]
]

-- A request whose id is in the log: nothing happens, and the fingerprint tells a retry from a
-- different request.
abbrev pub answer_again : Platform → String → OperationRequest → LoggedOperation → Answer
answer_again platform guid r l =
    if str_eq l.request_fingerprint (platform.fingerprint guid r)
    then already_applied l
    else idempotency_conflict l

-- `ApplyEntitlementOperationAsync`
unfoldable pub apply_operation :
    Platform → String → OperationRequest → Instant → Mediator → Mediator × Answer
unfolding apply_new
apply_operation platform guid r now m =
    if not (is_valid_operation platform r)
    then (m, invalid_request)
    else elim (find (has_operation r.operation_id) m.log) [
      | some logged ↦ (m, answer_again platform guid r logged)
      | none ↦ elim (find (has_guid guid) m.subscriptions) [
        | none ↦ (m, subscription_not_found)
        | some s ↦ apply_new platform r now m s
      ]
    ]

-- `ApplyEntitlementAsync` writes nothing unless the version is new and the limit is not lowered.
abbrev pub is_update : Entitlement → MediatedSubscription → Bool
is_update e s = elim s.entitlement [
  | none ↦ leb s.active_device_tokens e.max_device_tokens
  | some current ↦
      leb current.max_device_tokens e.max_device_tokens
      && leb s.active_device_tokens e.max_device_tokens
      && ltb current.version e.version
]

unfoldable pub apply_entitlement : String → Entitlement → Mediator → Mediator
apply_entitlement guid e m =
    if not (is_valid_entitlement e) then m else elim (find (has_guid guid) m.subscriptions) [
      | none ↦ m
      | some s ↦
          if is_update e s
          then record m {
            subscriptions = update_where (has_guid guid) (put_entitlement e) m.subscriptions;
          }
          else m
    ]
