-- ===== src/Tests/OperationRuns.antt =====
-- The activation of an order: who may claim it, and its durable operation.
use vpn_mediator_public.Prelude.{◌≤◌, ◌≡◌, refl, false, none, some, List, [], ◌∷◌, arith, eq_iff}
use vpn_mediator_public.Clock.{Instant}
use vpn_mediator_public.Table.{count_where}
use vpn_mediator_public.Orders.Status
use vpn_mediator_public.Orders.Status.{OrderStatus}
use vpn_mediator_public.Orders.Repository.{Order, transition_status}
use vpn_mediator_public.Orders.Claims.{transition_once}
use vpn_mediator_public.Operations.{Operation, Request, new_operation, claim_operation}
use vpn_mediator_public.Operations.Marks.{
  mark_manual_review, is_active_for, rearm_after_reconciliation,
}
use vpn_mediator_public.Operations.Ownership.{
  Call, claim_call, request, calls, IsOwned, calls-IsOwned,
}
use vpn_mediator_public.Operations.Single.{rearm_single}

abbrev order : Order
order = record {
  id = 1;
  user_id = 7;
  status = Status.payment_received;
  provider = "telegram_stars";
  amount_minor_units = 100;
  currency = "XTR";
  invoice_payload = "order:1";
  provider_payment_id = some "charge-1";
  provider_payment_status = none;
  payment_bot_key = none;
  expires_at = none;
  checkout_authorized_at = none;
  checkout_authorized_until = none;
  paid_at = some 500;
  cancelled_at = none;
  completed_at = none;
  activation_attempt_count = 0;
  last_activation_attempt_at = none;
  last_activation_error_code = none;
  next_activation_retry_at = none;
}

abbrev claimable_statuses : List OrderStatus
claimable_statuses = Status.payment_received ∷ Status.activation_failed ∷ []

transition_once_example :
    let after = (transition_status 1 claimable_statuses Status.activating 1000 (order ∷ [])).0 in
    transition_status 1 claimable_statuses Status.activating 2000 after ≡ (after, false)
transition_once_example =
    transition_once 1 claimable_statuses Status.activating Status.activating 1000 2000 (order ∷ [])
      refl

abbrev activation : Request
activation = record {
  user_id = 7;
  operation_type = "order_activation";
  source_entity_type = "order";
  source_entity_id = "1";
  idempotency_key = "order:1";
  subscription_id = some 3;
  duration_delta_seconds = 2592000;
  requested_device_limit = some 2;
  requested_status = none;
  observed_valid_until = none;
}

abbrev owned : Operation
owned = claim_operation "worker-a" 120 1000 (new_operation 5 "operation-5" activation 1000)

abbrev attempts : List (Call × Instant)
attempts = (request 5, 2000) ∷ (claim_call 5 "worker-b" 120, 3000) ∷ []

calls-IsOwned_example : IsOwned 5 "worker-a" 120001000 (calls attempts (owned ∷ []))
calls-IsOwned_example =
    calls-IsOwned 5 "worker-a" 120001000 attempts (owned ∷ [])
      (record { operation = owned; found = refl; owned = refl; leased = refl })
      (tt, ((λ e. ground (arith, eq_iff "worker-b" "worker-a"), omega arith), tt))

abbrev blocked : Operation
blocked =
    mark_manual_review "reconciliation_blocked" 2000 (new_operation 5 "operation-5" activation 1000)

rearm_single_example :
    count_where (is_active_for 3) (rearm_after_reconciliation blocked 3000 (blocked ∷ [])).0 ≤ 1
rearm_single_example = rearm_single blocked 3000 (blocked ∷ []) 3 refl (omega arith) (omega arith)
