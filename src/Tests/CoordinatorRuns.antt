-- ===== src/Tests/CoordinatorRuns.antt =====
-- The coordinator and the mediator at one operation.
use vpn_mediator_public.Prelude.{
  str_eq, ℕ, ◌≤◌, ◌≡◌, refl, true, false, none, some, List, [], ◌∷◌, ok, arith, leb, ◌&&◌, inl,
  if◌then◌else◌,
}
use vpn_mediator_public.Clock.{Instant}
use vpn_mediator_public.Table.{count_where}
use vpn_mediator_public.Operations.{Request, new_operation, claim_operation}
use vpn_mediator_public.Mediator.{
  Entitlement, MediatedSubscription, OperationRequest, LoggedOperation, Mediator, Platform,
  apply_operation, already_applied, has_operation, logged_operation, apply_new, commit_operation,
}
use vpn_mediator_public.Mediator.Calls.{
  create_subscription, insert_subscription, NewSubscription, MediatorCall, create_call,
  operation_call, entitlement_call, tokens_call, serve_all,
}
use vpn_mediator_public.Mediator.Log.{IsValid}
use vpn_mediator_public.Mediator.Recreated.{create_subscription_twice}
use vpn_mediator_public.Mediator.Served.{serve_all-IsValid}
use vpn_mediator_public.Mediator.Replay.{apply_operation_twice}
use vpn_mediator_public.Coordinator.{World, Moment, delivered, response_lost, remote, ◌>>=◌, mark}
use vpn_mediator_public.Coordinator.Client.{
  Details, entitlement_details, get_entitlement, get_entitlement_operation,
  apply_entitlement_operation, apply_response, operation_response, operation_result,
}
use vpn_mediator_public.Coordinator.Plan.{
  AppliedEntitlement, Target, no_options, calculate_valid_until, from_operation,
}
use vpn_mediator_public.Coordinator.Apply.{
  apply_generic, apply_to_existing, apply_unless, is_superseded, claim_row, start_rounds, rounds,
  send_intent, check_version, write_intent, after_request, after_recovery, give_up,
  recover_remote_result, recover_from, record_result, read_result,
}
use vpn_mediator_public.Coordinator.Agreement.{Agrees}
use vpn_mediator_public.Coordinator.Exactness.{Matches}
use vpn_mediator_public.Coordinator.Once.{Attempt, generic, run_attempts, apply_generic_once}
use vpn_mediator_public.Coordinator.Recovery.{classify}
use vpn_mediator_public.Coordinator.Progress.{IsReleased, classify_releases}
use vpn_mediator_public.Coordinator.Success.{
  IsReady, request_for, granted, apply_to_existing_succeeds,
}
use vpn_mediator_public.Coordinator.Requests.{apply_to_existing_ends}

abbrev sample_platform : Platform
sample_platform = record {
  fingerprint = λ guid r. r.operation_type;
  accepts_operation_id = λ i. true;
  accepts_operation_type = λ t. true;
  is_blank = λ t. str_eq t "";
  creation_id = λ guid. if str_eq guid "guid-2" then "creation-2" else "creation-1";
}

abbrev sample_entitlement : Entitlement
sample_entitlement = record {
  version = 3;
  status = "active";
  valid_until = some 1000;
  max_device_tokens = 2;
}

abbrev sample_subscription : MediatedSubscription
sample_subscription = record {
  public_guid = "guid-1";
  external_request_id = some "request-1";
  entitlement = some sample_entitlement;
  active_device_tokens = 1;
}

abbrev sample_mediator : Mediator
sample_mediator = record { subscriptions = sample_subscription ∷ []; log = [] }

sample-IsValid : IsValid sample_mediator
sample-IsValid = record {
  unique = λ i. omega arith;
  versions = λ guid v. omega arith;
  covered = tt;
}

abbrev sample_request : OperationRequest
sample_request = record {
  operation_id = "operation-5";
  operation_type = "paid_activation";
  expected_version = 3;
  status = "active";
  valid_until = some 9000;
  max_device_tokens = 2;
}

abbrev second_subscription : NewSubscription
second_subscription = record {
  public_guid = "guid-2";
  external_request_id = some "request-2";
  entitlement = sample_entitlement;
}

abbrev sample_calls : List (MediatorCall × Instant)
sample_calls =
    (create_call second_subscription, 1900)
    ∷ (operation_call "guid-1" sample_request, 2000)
    ∷ (entitlement_call "guid-1" sample_entitlement, 2100)
    ∷ (tokens_call "guid-1" 2, 2200)
    ∷ []

serve_all-IsValid_example : IsValid (serve_all sample_platform sample_calls sample_mediator)
serve_all-IsValid_example =
    serve_all-IsValid sample_platform sample_calls sample_mediator sample-IsValid

-- The second request draws another guid, and gets the first one.
create_subscription_twice_example :
    let after =
      serve_all sample_platform sample_calls
        (create_subscription sample_platform second_subscription 1500 sample_mediator).0 in
    create_subscription sample_platform
      (record second_subscription { public_guid = "guid-3" })
      3000
      after
    ≡ (after, some ("guid-2", true))
unfolding create_subscription insert_subscription
create_subscription_twice_example =
    create_subscription_twice sample_platform second_subscription
      (record second_subscription { public_guid = "guid-3" }) 1500 3000 sample_calls "request-2"
      "guid-2" false sample_mediator refl refl refl refl refl

abbrev sample_entry : LoggedOperation
sample_entry = logged_operation sample_platform "guid-1" sample_request 3 2000

apply_operation_twice_example :
    let after =
      serve_all sample_platform sample_calls
        (apply_operation sample_platform "guid-1" sample_request 2000 sample_mediator).0 in
    apply_operation sample_platform "guid-1" sample_request 3000 after
    ≡ (after, already_applied sample_entry)
unfolding apply_operation apply_new
apply_operation_twice_example =
    apply_operation_twice sample_platform "guid-1" sample_request 2000 3000 sample_calls
      sample_mediator sample_entry refl

abbrev order_request : Request
order_request = record {
  user_id = 7;
  operation_type = "paid_activation";
  source_entity_type = "order";
  source_entity_id = "1";
  idempotency_key = "entitlement:order:1";
  subscription_id = some 3;
  duration_delta_seconds = 2592000;
  requested_device_limit = some 2;
  requested_status = some "active";
  observed_valid_until = none;
}

abbrev sample_world : World
sample_world = record {
  operation = new_operation 5 "operation-5" order_request 1000;
  mediator = sample_mediator;
  requests = 0;
}

abbrev sample_target : Target
sample_target = record { subscription_id = 3; public_guid = "guid-1" }

sample-Agrees : Agrees "operation-5" sample_world
sample-Agrees = record { valid = sample-IsValid; named = refl; recorded = inl refl }

abbrev calm : ℕ → Moment
calm n = record { now = 2000; before = []; fault = delivered }

-- The responses to the third and fourth requests are lost: the operation is applied, and the
-- question whether it was fails too.
abbrev lossy : ℕ → Moment
lossy n = record {
  now = 2000;
  before = [];
  fault = if leb 2 n && leb n 3 then response_lost else delivered;
}

abbrev recovered_entitlement : AppliedEntitlement
recovered_entitlement = record {
  public_guid = "";
  version = 4;
  status = "active";
  valid_until = 2592000002000;
  max_device_tokens = 2;
  applied_at = 2000;
}

abbrev first_attempt : List Attempt
first_attempt = generic "worker-a" sample_target no_options ∷ []

-- The second attempt finds what the first one did.
apply_generic_once_example :
    let after =
      (apply_generic sample_platform lossy "worker-a" sample_target no_options
        (run_attempts sample_platform lossy first_attempt sample_world)).1.mediator.log in
    Matches "operation-5" recovered_entitlement after
    × (count_where (has_operation "operation-5") after ≡ 1)
unfolding run_attempts apply_generic claim_row is_superseded apply_unless apply_to_existing
    start_rounds rounds send_intent check_version write_intent after_request after_recovery give_up
    recover_remote_result recover_from record_result read_result get_entitlement
    get_entitlement_operation apply_entitlement_operation apply_response operation_response
    operation_result entitlement_details from_operation calculate_valid_until remote mark ◌>>=◌
    apply_operation apply_new serve_all
apply_generic_once_example =
    apply_generic_once sample_platform lossy "operation-5" first_attempt sample_world "worker-a"
      sample_target no_options recovered_entitlement sample-Agrees refl

abbrev stranded_world : World
stranded_world = record sample_world {
  operation = claim_operation "worker-a" 120 1000 sample_world.operation;
}

abbrev late : ℕ → Moment
late n = record { now = 500000000; before = []; fault = delivered }

-- The mediator has applied the operation, and its worker is gone before it could write that down.
abbrev applied_world : World
applied_world = record stranded_world {
  mediator = record sample_mediator { log = sample_entry ∷ [] };
}

classify_releases_example :
    IsReleased sample_platform 5 500000000 (classify sample_platform late applied_world)
unfolding operation_result
classify_releases_example =
    classify_releases sample_platform late applied_world (record { alone = refl; arrives = refl })
      (refl, (9000, refl)) refl refl

apply_to_existing_ends_example :
    (apply_to_existing sample_platform lossy sample_target no_options sample_world).1.requests ≤ 10
apply_to_existing_ends_example =
    apply_to_existing_ends sample_platform lossy sample_target no_options sample_world

abbrev sample_details : Details
sample_details = record {
  version = 3;
  status = "active";
  valid_until = 1000;
  max_device_tokens = 2;
}

sample-IsReady :
    IsReady sample_platform calm sample_target no_options sample_world sample_subscription
      sample_entitlement sample_details
unfolding entitlement_details calculate_valid_until
sample-IsReady = record {
  unrecorded = refl;
  new = refl;
  found = refl;
  holds = refl;
  read = refl;
  version = refl;
  valid = refl;
  admitted = refl;
}

apply_to_existing_succeeds_example :
    let request = request_for calm sample_target no_options sample_world sample_details in
    let result = apply_to_existing sample_platform calm sample_target no_options sample_world in
    (result.0 ≡ ok (granted sample_target request 3 2592000002000 2000))
    × (result.1.mediator
        ≡ commit_operation sample_platform request 3 2000 sample_subscription sample_mediator)
unfolding calculate_valid_until
apply_to_existing_succeeds_example =
    apply_to_existing_succeeds sample_platform calm sample_target no_options sample_world
      sample_subscription sample_entitlement sample_details
      (record { alone = refl; arrives = refl }) (record { alone = refl; arrives = refl })
      (record { alone = refl; arrives = refl }) sample-IsReady
