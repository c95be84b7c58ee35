-- ===== src/Coordinator/Apply.antt =====
-- The coordinator's own methods: how an operation is applied to a subscription that exists, and how
-- the result of an earlier request is recovered.
use vpn_mediator_public.Prelude.{
  ℕ, zero, suc, String, Bool, true, false, ◌||◌, Option, none, some, ltb, if◌then◌else◌, Result, ok,
  err,
}
use vpn_mediator_public.Operations.{is_claimable, claim_operation}
use vpn_mediator_public.Operations.Marks.{
  Intent, set_intent, mark_request_sent, mark_external_applied, mark_failed_retriable,
  mark_manual_review, mark_superseded,
}
use vpn_mediator_public.Mediator.{LoggedOperation, Platform}
use vpn_mediator_public.Clock.{Instant}
use vpn_mediator_public.Coordinator.{
  Code, Moment, Action, pure, raise, try_, ◌>>=◌, ◌>>◌, clock, mark,
}
use vpn_mediator_public.Coordinator.Client.{
  invalid_response, Details, get_entitlement, get_entitlement_operation,
  apply_entitlement_operation,
}
use vpn_mediator_public.Coordinator.Plan.{
  AppliedEntitlement, Target, Options, no_options, observation, or_else, from_operation,
  external_result, intent, intent_request, has_version, reclaim, is_version_conflict, is_recorded,
  is_completed,
}

module _ (platform : Platform) (timeline : ℕ → Moment) where
  -- The operation's result, once it is recorded.
  unfoldable pub read_result : Option String → Action AppliedEntitlement
  unfolding from_operation
  read_result guid w = (from_operation guid w.operation (clock timeline w), w)

  -- `_record_remote_result`, where `_parse_required` raises on a missing validity.
  unfoldable pub record_result : LoggedOperation → Option Instant → Action (Unit {0})
  unfolding mark
  record_result l none = raise invalid_response
  record_result l (some t) = mark timeline (mark_external_applied (external_result l t))

  abbrev pub record_remote_result : LoggedOperation → Action (Unit {0})
  record_remote_result l = record_result l l.result_valid_until

  unfoldable pub recover_from : Option LoggedOperation → Action (Option AppliedEntitlement)
  unfolding ◌>>=◌ record_result read_result
  recover_from none = pure none
  recover_from (some l) = do record_remote_result l; applied ← read_result none; pure (some applied)

  unfoldable pub recover_remote_result : Action (Option AppliedEntitlement)
  unfolding ◌>>=◌ get_entitlement_operation recover_from
  recover_remote_result w =
      (do
        found ← get_entitlement_operation platform timeline w.operation.public_id
        recover_from found)
        w

  -- The coordinator's writes before a request: the intent and the mark, in one commit.
  unfoldable pub write_intent : Intent → Action (Unit {0})
  unfolding mark
  write_intent n = mark timeline (λ now o. mark_request_sent now (set_intent n now o))

  -- Where the required version is not the mediator's, nothing is sent.
  unfoldable pub check_version : Options → Details → Action (Unit {0})
  unfolding ◌>>=◌ mark
  check_version opts d =
      if has_version opts.required_current_version d.version then pure tt else (do
        mark timeline (mark_manual_review "required_entitlement_version_changed")
        raise (some "required_entitlement_version_changed"))

  -- A request that raised and left nothing at the mediator: a further round after a version
  -- conflict, or the exception.
  unfoldable pub give_up : Code → Bool → Action AppliedEntitlement → Action AppliedEntitlement
  unfolding ◌>>=◌ mark
  give_up code true again = do mark timeline (reclaim code); again
  give_up code false again = do
    mark timeline (mark_failed_retriable (or_else code "mediator_outcome_unknown"))
    raise code

  -- What follows a request that raised, from what was recovered.
  unfoldable pub after_recovery :
      Code → Action AppliedEntitlement → Option AppliedEntitlement → Action AppliedEntitlement
  unfolding give_up
  after_recovery code again (some applied) = pure applied
  after_recovery code again none = give_up code (is_version_conflict code) again

  -- What follows a request.
  unfoldable pub after_request :
      String → Action AppliedEntitlement → Result Code LoggedOperation → Action AppliedEntitlement
  unfolding ◌>>=◌ after_recovery recover_remote_result record_result read_result
  after_request guid again (err code) = do
    recovered ← recover_remote_result
    after_recovery code again recovered
  after_request guid again (ok l) = do record_remote_result l; read_result (some guid)

  -- One request of a round, from the entitlement that was read.
  unfoldable pub send_intent :
      Target → Options → Details → Action AppliedEntitlement → Action AppliedEntitlement
  unfolding ◌>>=◌ write_intent after_request apply_entitlement_operation
  send_intent target opts d again w =
      let n = intent w.operation target d opts (clock timeline w) in
      (do
        write_intent n
        answer ← try_ (
            apply_entitlement_operation platform timeline target.public_guid
              (intent_request w.operation n))
        after_request target.public_guid again answer)
        w

  -- `for _ in range(3)`, with the rounds that are left and the last conflict.
  unfoldable pub rounds : ℕ → Code → Target → Options → Action AppliedEntitlement
  unfolding ◌>>=◌ get_entitlement check_version send_intent
  rounds zero last target opts = raise last
  rounds (suc n) last target opts = do
    d ← get_entitlement platform timeline target.public_guid
    check_version opts d
    send_intent target opts d (rounds n (some "entitlement_operation_version_conflict") target opts)

  -- `_apply_to_existing`: the result of an earlier request, or at most three rounds.
  unfoldable pub start_rounds :
      Target → Options → Option AppliedEntitlement → Action AppliedEntitlement
  unfolding rounds
  start_rounds target opts (some applied) = pure applied
  start_rounds target opts none = rounds 3 (some "entitlement_operation_conflict") target opts

  unfoldable pub apply_to_existing : Target → Options → Action AppliedEntitlement
  unfolding ◌>>=◌ read_result recover_remote_result start_rounds
  apply_to_existing target opts w =
      if is_recorded w.operation.state
      then read_result (some target.public_guid) w
      else (do recovered ← recover_remote_result; start_rounds target opts recovered) w

  -- The claim that precedes every request, with the default lease.
  unfoldable pub claim_row : String → Action (Unit {0})
  unfolding mark
  claim_row owner w =
      if is_claimable w.operation.id owner (clock timeline w) w.operation
      then mark timeline (claim_operation owner 120) w
      else raise (some "access_operation_in_progress") w

  -- Whether the mediator's validity is beyond the one that the operation was planned from, where
  -- that is to be asked.
  unfoldable pub is_superseded : Option Instant → Target → Action Bool
  unfolding ◌>>=◌ get_entitlement
  is_superseded none target = pure false
  is_superseded (some observed) target = do
    d ← get_entitlement platform timeline target.public_guid
    pure (ltb observed d.valid_until)

  unfoldable pub apply_unless : Bool → Target → Options → Action (Option AppliedEntitlement)
  unfolding ◌>>=◌ mark apply_to_existing
  apply_unless true target opts = do
    mark timeline (mark_superseded "authoritative_entitlement_advanced")
    pure none
  apply_unless false target opts = do applied ← apply_to_existing target opts; pure (some applied)

  -- `apply_generic`, which returns nothing for an operation that is superseded.
  unfoldable pub apply_generic : String → Target → Options → Action (Option AppliedEntitlement)
  unfolding ◌>>=◌ read_result claim_row is_superseded apply_unless
  apply_generic owner target opts w =
      if is_completed w.operation.state
      then (do applied ← read_result none; pure (some applied)) w
      else (do
        claim_row owner
        stale ← is_superseded (observation opts w.operation) target
        apply_unless stale target opts)
          w

  -- `apply_order` to a subscription that exists.
  unfoldable pub apply_order : String → Target → Action AppliedEntitlement
  unfolding ◌>>=◌ read_result claim_row apply_to_existing
  apply_order owner target w =
      if is_recorded w.operation.state || is_completed w.operation.state
      then read_result none w
      else (do claim_row owner; apply_to_existing target no_options) w
