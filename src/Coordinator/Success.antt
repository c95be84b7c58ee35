-- ===== src/Coordinator/Success.antt =====
-- An attempt that nothing disturbs: what the mediator grants for it.
use vpn_mediator_public.Prelude.{
  ℕ, suc, ◌+◌, ◌≡◌, refl, ◌∙◌, String, true, false, none, some, ok, arith,
}
use vpn_mediator_public.Clock.{Instant}
use vpn_mediator_public.Table.{find}
use vpn_mediator_public.Operations.Marks.{set_intent, mark_request_sent}
use vpn_mediator_public.Mediator.{
  Entitlement, MediatedSubscription, OperationRequest, LoggedOperation, Mediator, Platform,
  is_valid_operation, applied, has_operation, has_guid, logged_operation, refusal, commit_operation,
  apply_new, apply_operation,
}
use vpn_mediator_public.Coordinator.{Code, World, Moment, Action, ◌>>=◌, mark}
use vpn_mediator_public.Coordinator.Client.{
  Details, entitlement_details, entitlement_of, operation_result, apply_response, get_entitlement,
  apply_entitlement_operation,
}
use vpn_mediator_public.Coordinator.Plan.{
  AppliedEntitlement, Target, Options, from_operation, calculate_valid_until, intent,
  intent_request, has_version, is_recorded,
}
use vpn_mediator_public.Coordinator.Apply.{
  read_result, record_result, write_intent, check_version, after_request, send_intent, rounds,
  recover_from, recover_remote_result, start_rounds, apply_to_existing,
}
use vpn_mediator_public.Coordinator.Progress.{IsQuiet, remote_quiet, get_operation_quiet}

module _ (platform : Platform) (timeline : ℕ → Moment) where
  get_entitlement_quiet :
      (guid : String) (w : World) (e : Entitlement) (d : Details)
      → IsQuiet (timeline w.requests)
      → entitlement_of guid w.mediator ≡ some e
      → entitlement_details e ≡ ok d
      → get_entitlement platform timeline guid w ≡ (ok d, record w { requests = w.requests + 1 })
  unfolding get_entitlement ◌>>=◌
  get_entitlement_quiet guid w e d q has read =
      rw (remote_quiet platform timeline (λ now m. (m, entitlement_of guid m)) w q)
        (rw (has, read) refl)

  apply_request_quiet :
      (guid : String) (r : OperationRequest) (w : World) (m : Mediator) (l : LoggedOperation)
      → IsQuiet (timeline w.requests)
      → apply_operation platform guid r (timeline w.requests).now w.mediator ≡ (m, applied l)
      → operation_result l ≡ ok l
      → apply_entitlement_operation platform timeline guid r w
        ≡ (ok l, record w { mediator = m; requests = w.requests + 1 })
  unfolding apply_entitlement_operation ◌>>=◌ apply_response
  apply_request_quiet guid r w m l q e read =
      rw (remote_quiet platform timeline (apply_operation platform guid r) w q) (rw (e, read) refl)

-- The request of the first round.
abbrev pub request_for : (ℕ → Moment) → Target → Options → World → Details → OperationRequest
request_for timeline target opts w d =
    intent_request w.operation
      (intent w.operation target d opts (timeline (w.requests + 1 + 1)).now)

-- What the entitlement that the mediator holds lets the operation ask for.
pub record IsReady (platform : Platform) (timeline : ℕ → Moment) (target : Target) (opts : Options)
    (w : World) (subscription : MediatedSubscription) (current : Entitlement) (details : Details)
    : Type 0 where
  pub unrecorded : is_recorded w.operation.state ≡ false
  pub new : find (has_operation w.operation.public_id) w.mediator.log ≡ none
  pub found : find (has_guid target.public_guid) w.mediator.subscriptions ≡ some subscription
  pub holds : subscription.entitlement ≡ some current
  pub read : entitlement_details current ≡ ok details
  pub version : has_version opts.required_current_version details.version ≡ true
  pub valid : is_valid_operation platform (request_for timeline target opts w details) ≡ true
  pub admitted : refusal (request_for timeline target opts w details) subscription current ≡ none

apply_operation_admitted :
    (platform : Platform) (guid : String) (r : OperationRequest) (now : Instant) (m : Mediator)
    (s : MediatedSubscription) (e : Entitlement)
    → is_valid_operation platform r ≡ true
    → find (has_operation r.operation_id) m.log ≡ none
    → find (has_guid guid) m.subscriptions ≡ some s
    → s.entitlement ≡ some e
    → refusal r s e ≡ none
    → apply_operation platform guid r now m ≡ (
      commit_operation platform r e.version now s m,
      applied (logged_operation platform s.public_guid r e.version now),
    )
unfolding apply_operation apply_new
apply_operation_admitted platform guid r now m s e valid new found holds admitted =
    let a : apply_operation platform guid r now m ≡ apply_new platform r now m s =
      ground (arith, valid, new, found) in
    let b : apply_new platform r now m s ≡ (
      commit_operation platform r e.version now s m,
      applied (logged_operation platform s.public_guid r e.version now),
    ) =
      ground (arith, holds, admitted) in
    a ∙ b

logged-operation_result :
    (platform : Platform) (guid : String) (r : OperationRequest) (version : ℕ) (now : Instant)
    → is_valid_operation platform r ≡ true
    → operation_result (logged_operation platform guid r version now)
      ≡ ok (logged_operation platform guid r version now)
unfolding operation_result
logged-operation_result platform guid r version now valid = ground (arith, valid)

-- What the coordinator reports of the request that was granted.
abbrev pub granted : Target → OperationRequest → ℕ → Instant → Instant → AppliedEntitlement
granted target r version valid_until now = record {
  public_guid = target.public_guid;
  version = version + 1;
  status = r.status;
  valid_until = valid_until;
  max_device_tokens = r.max_device_tokens;
  applied_at = now;
}

recover_quiet :
    (platform : Platform) (timeline : ℕ → Moment) (w : World)
    → IsQuiet (timeline w.requests)
    → find (has_operation w.operation.public_id) w.mediator.log ≡ none
    → recover_remote_result platform timeline w ≡ (ok none, record w { requests = w.requests + 1 })
unfolding recover_remote_result recover_from ◌>>=◌
recover_quiet platform timeline w q new =
    rw (get_operation_quiet platform timeline w.operation.public_id w q (rw new tt)) (rw new refl)

starts_rounds :
    (platform : Platform) (timeline : ℕ → Moment) (target : Target) (opts : Options) (w : World)
    → is_recorded w.operation.state ≡ false
    → IsQuiet (timeline w.requests)
    → find (has_operation w.operation.public_id) w.mediator.log ≡ none
    → apply_to_existing platform timeline target opts w
      ≡ rounds platform timeline 3
          (some "entitlement_operation_conflict")
          target
          opts
          (record w { requests = w.requests + 1 })
unfolding apply_to_existing start_rounds ◌>>=◌
starts_rounds platform timeline target opts w unrecorded q new =
    rw unrecorded (rw (recover_quiet platform timeline w q new) refl)

round_quiet :
    (platform : Platform) (timeline : ℕ → Moment) (n : ℕ) (last : Code) (target : Target)
    (opts : Options) (w : World) (e : Entitlement) (d : Details)
    → IsQuiet (timeline w.requests)
    → entitlement_of target.public_guid w.mediator ≡ some e
    → entitlement_details e ≡ ok d
    → has_version opts.required_current_version d.version ≡ true
    → rounds platform timeline (suc n) last target opts w
      ≡ send_intent platform timeline target opts d
          (rounds platform timeline n (some "entitlement_operation_version_conflict") target opts)
          (record w { requests = w.requests + 1 })
unfolding rounds check_version ◌>>=◌
round_quiet platform timeline n last target opts w e d q has read same =
    rw (get_entitlement_quiet platform timeline target.public_guid w e d q has read) (rw same refl)

-- A request of the round that the mediator admits.
send_quiet :
    (platform : Platform) (timeline : ℕ → Moment) (target : Target) (opts : Options) (d : Details)
    (again : Action AppliedEntitlement) (w : World) (s : MediatedSubscription) (version : ℕ)
    → IsQuiet (timeline w.requests)
    → let now = (timeline w.requests).now in
      let r = intent_request w.operation (intent w.operation target d opts now) in
      is_valid_operation platform r ≡ true
      → apply_operation platform target.public_guid r now w.mediator ≡ (
        commit_operation platform r version now s w.mediator,
        applied (logged_operation platform s.public_guid r version now),
      )
      → let result = send_intent platform timeline target opts d again w in
        (result.0
          ≡ ok (
              granted target r version
                (calculate_valid_until w.operation d opts.exact_valid_until now)
                now))
        × (result.1.mediator ≡ commit_operation platform r version now s w.mediator)
unfolding send_intent write_intent mark after_request record_result read_result from_operation ◌>>=◌
send_quiet platform timeline target opts d again w s version q valid e =
    let now = (timeline w.requests).now in
    let n = intent w.operation target d opts now in
    let r = intent_request w.operation n in
    let l = logged_operation platform s.public_guid r version now in
    let w' : World = record w {
      operation = mark_request_sent now (set_intent n now w.operation);
    } in
    rw
      (apply_request_quiet platform timeline target.public_guid r w'
        (commit_operation platform r version now s w.mediator) l q e
        (logged-operation_result platform s.public_guid r version now valid))
      (refl, refl)

-- If three requests in a row are undisturbed and the mediator's guards admit the request, an attempt
-- to apply an operation that the mediator has not seen returns the next version of the entitlement
-- with the status, validity and limit that were computed, and the mediator has committed just that.
pub apply_to_existing_succeeds :
    (platform : Platform) (timeline : ℕ → Moment) (target : Target) (opts : Options) (w : World)
    (s : MediatedSubscription) (current : Entitlement) (d : Details)
    → IsQuiet (timeline w.requests)
    → IsQuiet (timeline (w.requests + 1))
    → IsQuiet (timeline (w.requests + 1 + 1))
    → IsReady platform timeline target opts w s current d
    → let now = (timeline (w.requests + 1 + 1)).now in
      let r = request_for timeline target opts w d in
      let result = apply_to_existing platform timeline target opts w in
      (result.0
        ≡ ok (
            granted target r current.version
              (calculate_valid_until w.operation d opts.exact_valid_until now)
              now))
      × (result.1.mediator ≡ commit_operation platform r current.version now s w.mediator)
apply_to_existing_succeeds platform timeline target opts w s current d q0 q1 q2 ready =
    let now = (timeline (w.requests + 1 + 1)).now in
    let r = request_for timeline target opts w d in
    let conflict : Code = some "entitlement_operation_version_conflict" in
    let again = rounds platform timeline 2 conflict target opts in
    let w1 : World = record w { requests = w.requests + 1 } in
    let w2 : World = record w { requests = w.requests + 1 + 1 } in
    let starts = starts_rounds platform timeline target opts w ready.unrecorded q0 ready.new in
    let goes =
      round_quiet platform timeline 2 (some "entitlement_operation_conflict") target opts w1 current
        d q1 (ground (arith, ready.found, ready.holds)) ready.read ready.version in
    rw (starts ∙ goes) (
      send_quiet platform timeline target opts d again w2 s current.version q2 ready.valid (
        apply_operation_admitted platform target.public_guid r now w.mediator s current ready.valid
          ready.new ready.found ready.holds ready.admitted))
