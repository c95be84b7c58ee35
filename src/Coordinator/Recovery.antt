-- ===== src/Coordinator/Recovery.antt =====
-- `EntitlementRecoveryWorker` of operations.py: what becomes of an operation whose worker is gone.
use vpn_mediator_public.Prelude.{ℕ, String, Option, none, some, Result, ok, err}
use vpn_mediator_public.Operations.{OperationState, external_unknown, claimed}
use vpn_mediator_public.Operations.Marks.{mark_failed_retriable}
use vpn_mediator_public.Mediator.{LoggedOperation, Platform}
use vpn_mediator_public.Coordinator.{Moment, Action, pure, ◌>>=◌, ◌>>◌, mark, try_}
use vpn_mediator_public.Coordinator.Client.{get_entitlement_operation}
use vpn_mediator_public.Coordinator.Apply.{record_result, record_remote_result}

-- What `classify` returns, and what `classify_stale` counts instead of an exception: the texts
-- "external_applied", "retryable" and "remote_unavailable", or the state as it is.
pub data Verdict : Type 0 where
  found_applied retryable remote_unavailable : Verdict
  left_in : (state : OperationState) → Verdict

module _ (platform : Platform) (timeline : ℕ → Moment) where
  -- An operation that the mediator does not know, by its state.
  unfoldable pub retry : OperationState → Action Verdict
  unfolding ◌>>=◌ mark
  retry external_unknown = do
    mark timeline (mark_failed_retriable "remote_operation_not_found")
    pure retryable
  retry claimed = do
    mark timeline (mark_failed_retriable "claim_expired_before_external_result")
    pure retryable
  retry state = pure (left_in state)

  unfoldable pub classify_found : OperationState → Option LoggedOperation → Action Verdict
  unfolding ◌>>=◌ record_result retry
  classify_found state none = retry state
  classify_found state (some l) = do record_remote_result platform timeline l; pure found_applied

  unfoldable pub classify : Action Verdict
  unfolding ◌>>=◌ get_entitlement_operation classify_found
  classify w =
      (do
        found ← get_entitlement_operation platform timeline w.operation.public_id
        classify_found w.operation.state found)
        w

  -- A step of `classify_stale`, which goes on when the mediator cannot be asked.
  unfoldable pub verdict_of : Result (Option String) Verdict → Verdict
  verdict_of (ok verdict) = verdict
  verdict_of (err code) = remote_unavailable

  unfoldable pub classify_one : Action Verdict
  unfolding ◌>>=◌ classify verdict_of
  classify_one = do r ← try_ classify; pure (verdict_of r)
