-- ===== src/Operations.antt =====
-- `EntitlementOperationRepository` of repositories.py: the durable record of one change of an
-- entitlement, from its creation over the request to the mediator to the local commit.
pub mod Marks
pub mod Ownership
pub mod Single
use vpn_mediator_public.Prelude.{
  ℕ, ◌+◌, String, Bool, true, false, ◌&&◌, ◌||◌, not, Option, none, some, List, [], ◌∷◌, ◌++◌, ltb,
  leb, ◌==◌, if◌then◌else◌, str_eq, max,
}
use vpn_mediator_public.Clock.{Instant, DateTime, to_aware_utc, seconds}
use vpn_mediator_public.Table.{select, find, update_where, count_where, order_by}

-- ENTITLEMENT_OPERATION_* of constants.py.
pub data OperationState : Type 0 where
  pending claimed external_unknown external_applied local_commit_pending completed : OperationState
  failed_retriable failed_terminal superseded manual_review compensating compensated :
      OperationState

pub record Operation : Type 0 where
  pub id : ℕ
  pub public_id : String
  pub subscription_id : Option ℕ
  pub user_id : ℕ
  pub operation_type : String
  pub source_entity_type : String
  pub source_entity_id : String
  pub idempotency_key : String
  pub expected_version : Option ℕ
  pub duration_delta_seconds : ℕ
  pub requested_device_limit : Option ℕ
  pub requested_status : Option String
  pub observed_valid_until : Option Instant
  pub intended_valid_until : Option Instant
  pub state : OperationState
  pub external_result_version : Option ℕ
  pub external_result_status : Option String
  pub external_result_valid_until : Option Instant
  pub external_result_device_limit : Option ℕ
  pub external_subscription_public_guid : Option String
  pub external_request_sent_at : Option Instant
  pub external_applied_at : Option Instant
  pub local_commit_completed_at : Option Instant
  pub claimed_by : Option String
  pub claim_expires_at : Option Instant
  pub attempt_count : ℕ
  pub last_error_code : Option String
  pub last_error_at : Option Instant
  pub created_at : Instant
  pub updated_at : Instant

-- ENTITLEMENT_OPERATION_ACTIVE_STATES
abbrev pub is_active : OperationState → Bool
is_active pending = true
is_active claimed = true
is_active external_unknown = true
is_active external_applied = true
is_active local_commit_pending = true
is_active failed_retriable = true
is_active compensating = true
is_active _ = false

-- The states in which `claim` takes an operation.
abbrev pub accepts_claim : OperationState → Bool
accepts_claim pending = true
accepts_claim failed_retriable = true
accepts_claim external_unknown = true
accepts_claim external_applied = true
accepts_claim _ = false

abbrev pub is_manual_review : OperationState → Bool
is_manual_review manual_review = true
is_manual_review _ = false

abbrev pub has_operation_id : ℕ → Operation → Bool
has_operation_id i o = o.id == i

-- What `create_once` is called with; the delta is not negative at its callers.
pub record Request : Type 0 where
  pub user_id : ℕ
  pub operation_type : String
  pub source_entity_type : String
  pub source_entity_id : String
  pub idempotency_key : String
  pub subscription_id : Option ℕ
  pub duration_delta_seconds : ℕ
  pub requested_device_limit : Option ℕ
  pub requested_status : Option String
  pub observed_valid_until : Option DateTime

-- (source_entity_type, source_entity_id, operation_type), a unique key of the table.
abbrev pub has_source : String → String → String → Operation → Bool
has_source entity_type entity_id operation_type o =
    str_eq o.source_entity_type entity_type
    && str_eq o.source_entity_id entity_id
    && str_eq o.operation_type operation_type

unfoldable pub get_for_source : Request → List Operation → Option Operation
get_for_source r t = find (has_source r.source_entity_type r.source_entity_id r.operation_type) t

abbrev pub new_operation : ℕ → String → Request → Instant → Operation
new_operation id public_id r now = record {
  id = id;
  public_id = public_id;
  subscription_id = r.subscription_id;
  user_id = r.user_id;
  operation_type = r.operation_type;
  source_entity_type = r.source_entity_type;
  source_entity_id = r.source_entity_id;
  idempotency_key = r.idempotency_key;
  expected_version = none;
  duration_delta_seconds = r.duration_delta_seconds;
  requested_device_limit = r.requested_device_limit;
  requested_status = r.requested_status;
  observed_valid_until = elim r.observed_valid_until [
    | none ↦ none
    | some t ↦ some (to_aware_utc t)
  ];
  intended_valid_until = none;
  state = pending;
  external_result_version = none;
  external_result_status = none;
  external_result_valid_until = none;
  external_result_device_limit = none;
  external_subscription_public_guid = none;
  external_request_sent_at = none;
  external_applied_at = none;
  local_commit_completed_at = none;
  claimed_by = none;
  claim_expires_at = none;
  attempt_count = 0;
  last_error_code = none;
  last_error_at = none;
  created_at = now;
  updated_at = now;
}

-- `create_once`, where the database gives a new row the key `id` and `uuid4` the public id.
unfoldable pub create_once :
    ℕ → String → Request → Instant → List Operation → List Operation × Operation
unfolding get_for_source
create_once id public_id r now t = elim (get_for_source r t) [
  | some existing ↦ (t, existing)
  | none ↦ (t ++ new_operation id public_id r now ∷ [], new_operation id public_id r now)
]

-- `claim_expires_at IS NULL OR claim_expires_at <= now`
abbrev pub has_expired : Instant → Option Instant → Bool
has_expired now none = true
has_expired now (some t) = leb t now

abbrev pub is_claimed_by : String → Option String → Bool
is_claimed_by owner none = false
is_claimed_by owner (some o) = str_eq o owner

-- The WHERE of `claim`.
abbrev pub is_claimable : ℕ → String → Instant → Operation → Bool
is_claimable i owner now o =
    has_operation_id i o
    && accepts_claim o.state
    && (has_expired now o.claim_expires_at || is_claimed_by owner o.claimed_by)

abbrev pub claim_operation : String → ℕ → Instant → Operation → Operation
claim_operation owner lease_seconds now o = record o {
  state = claimed;
  claimed_by = some owner;
  claim_expires_at = some (now + seconds (max lease_seconds 1));
  attempt_count = o.attempt_count + 1;
  last_error_code = none;
  updated_at = now;
}

-- `claim`: the table and whether the operation was claimed.
unfoldable pub claim : ℕ → String → ℕ → Instant → List Operation → List Operation × Bool
claim i owner lease_seconds now t = (
  update_where (is_claimable i owner now) (claim_operation owner lease_seconds now) t,
  count_where (is_claimable i owner now) t == 1,
)
