-- ===== src/Coordinator/Requests.antt =====
-- How many requests an attempt sends: the loop of `_apply_to_existing` ends, however the mediator
-- answers.
use vpn_mediator_public.Prelude.{
  ℕ, zero, suc, ◌+◌, ◌*◌, ◌≤◌, String, Bool, true, false, Option, none, some, Result, ok, err,
  arith, Bool-cases, inl, inr,
}
use vpn_mediator_public.Clock.{Instant}
use vpn_mediator_public.Mediator.{
  OperationRequest, LoggedOperation, Platform, apply_operation, has_operation,
}
use vpn_mediator_public.Table.{find}
use vpn_mediator_public.Operations.Marks.{
  set_intent, mark_request_sent, mark_external_applied, mark_failed_retriable, mark_manual_review,
}
use vpn_mediator_public.Coordinator.{
  Code, World, Moment, Action, remote, mark, ◌>>=◌, raise, lift, try_, clock,
}
use vpn_mediator_public.Coordinator.Client.{
  Details, entitlement_of, details_response, operation_response, apply_response, get_entitlement,
  get_entitlement_operation, apply_entitlement_operation,
}
use vpn_mediator_public.Coordinator.Plan.{
  AppliedEntitlement, Target, Options, external_result, or_else, intent, intent_request,
  has_version, reclaim, is_version_conflict, is_recorded,
}
use vpn_mediator_public.Coordinator.Apply.{
  read_result, record_result, record_remote_result, recover_from, recover_remote_result,
  write_intent, check_version, give_up, after_recovery, after_request, send_intent, rounds,
  start_rounds, apply_to_existing,
}
use vpn_mediator_public.Coordinator.Sends.{
  Sends, Sends-bind, Sends-more, Sends-pure, Sends-try, Sends-remote, Sends-mark,
}

module _ (platform : Platform) (timeline : ℕ → Moment) where
  Sends-get_operation : (i : String) → Sends 1 (get_entitlement_operation platform timeline i)
  unfolding get_entitlement_operation
  Sends-get_operation i =
      Sends-bind 1 0 (remote platform timeline (λ now m. (m, find (has_operation i) m.log)))
        (λ found. lift (operation_response found))
        (Sends-remote platform timeline (λ now m. (m, find (has_operation i) m.log)))
        (λ found. Sends-pure (operation_response found) 0)

  Sends-get_entitlement : (guid : String) → Sends 1 (get_entitlement platform timeline guid)
  unfolding get_entitlement
  Sends-get_entitlement guid =
      Sends-bind 1 0 (remote platform timeline (λ now m. (m, entitlement_of guid m)))
        (λ found. lift (details_response found))
        (Sends-remote platform timeline (λ now m. (m, entitlement_of guid m)))
        (λ found. Sends-pure (details_response found) 0)

  Sends-apply_request :
      (guid : String) (r : OperationRequest)
      → Sends 1 (apply_entitlement_operation platform timeline guid r)
  unfolding apply_entitlement_operation
  Sends-apply_request guid r =
      Sends-bind 1 0 (remote platform timeline (apply_operation platform guid r))
        (λ answer. lift (apply_response answer))
        (Sends-remote platform timeline (apply_operation platform guid r))
        (λ answer. Sends-pure (apply_response answer) 0)

  Sends-record :
      (l : LoggedOperation) (t : Option Instant) → Sends 0 (record_result platform timeline l t)
  unfolding record_result
  Sends-record l none = record { at = λ w. omega arith }
  Sends-record l (some t) =
      Sends-mark platform timeline (mark_external_applied (external_result l t)) 0

  Sends-read : (guid : Option String) → Sends 0 (read_result platform timeline guid)
  unfolding read_result
  Sends-read guid = record { at = λ w. omega arith }

  Sends-recover_from :
      (found : Option LoggedOperation) → Sends 0 (recover_from platform timeline found)
  unfolding recover_from
  Sends-recover_from none = Sends-pure (ok none) 0
  Sends-recover_from (some l) =
      Sends-bind 0 0 (record_remote_result platform timeline l) _
        (Sends-record l l.result_valid_until)
        (λ x.
          Sends-bind 0 0 (read_result platform timeline none) _ (Sends-read none)
            (λ a. Sends-pure (ok (some a)) 0))

  Sends-recover : Sends 1 (recover_remote_result platform timeline)
  unfolding recover_remote_result
  Sends-recover = record {
    at = λ w.
        (Sends-bind 1 0 (get_entitlement_operation platform timeline w.operation.public_id)
            (recover_from platform timeline) (Sends-get_operation w.operation.public_id)
            Sends-recover_from).at
          w;
  }

  Sends-give_up :
      (code : Code) (retry : Bool) (again : Action AppliedEntitlement) (k : ℕ)
      → Sends k again
      → Sends k (give_up platform timeline code retry again)
  unfolding give_up
  Sends-give_up code true again k h = Sends-more (0 + k) k _ (omega arith) (
      Sends-bind 0 k (mark timeline (reclaim code)) (λ x. again)
        (Sends-mark platform timeline (reclaim code) 0) (λ x. h))
  Sends-give_up code false again k h = Sends-more (0 + 0) k _ (omega arith) (
      Sends-bind 0 0
        (mark timeline (mark_failed_retriable (or_else code "mediator_outcome_unknown")))
        (λ x. raise code)
        (Sends-mark platform timeline
          (mark_failed_retriable (or_else code "mediator_outcome_unknown")) 0)
        (λ x. Sends-pure (err code) 0))

  Sends-after_recovery :
      (code : Code) (again : Action AppliedEntitlement) (k : ℕ)
      (recovered : Option AppliedEntitlement)
      → Sends k again
      → Sends k (after_recovery platform timeline code again recovered)
  unfolding after_recovery
  Sends-after_recovery code again k (some a) h = Sends-pure (ok a) k
  Sends-after_recovery code again k none h = Sends-give_up code (is_version_conflict code) again k h

  Sends-after_request :
      (guid : String) (again : Action AppliedEntitlement) (k : ℕ)
      (answer : Result Code LoggedOperation)
      → Sends k again
      → Sends (1 + k) (after_request platform timeline guid again answer)
  unfolding after_request
  Sends-after_request guid again k (err code) h =
      Sends-bind 1 k (recover_remote_result platform timeline)
        (after_recovery platform timeline code again) Sends-recover
        (λ recovered. Sends-after_recovery code again k recovered h)
  Sends-after_request guid again k (ok l) h =
      Sends-more (0 + 0) (1 + k) (after_request platform timeline guid again (ok l)) (omega arith) (
        Sends-bind 0 0 (record_remote_result platform timeline l)
          (λ x. read_result platform timeline (some guid)) (Sends-record l l.result_valid_until)
          (λ x. Sends-read (some guid)))

  Sends-send_intent :
      (target : Target) (opts : Options) (d : Details) (again : Action AppliedEntitlement) (k : ℕ)
      → Sends k again
      → Sends (0 + (1 + (1 + k))) (send_intent platform timeline target opts d again)
  unfolding send_intent write_intent
  Sends-send_intent target opts d again k h = record {
    at = λ w.
        let n = intent w.operation target d opts (clock timeline w) in
        let request =
          apply_entitlement_operation platform timeline target.public_guid
            (intent_request w.operation n) in
        (Sends-bind 0 (1 + (1 + k)) (write_intent platform timeline n)
            (λ x. try_ request >>= after_request platform timeline target.public_guid again)
            (Sends-mark platform timeline (λ now o. mark_request_sent now (set_intent n now o)) 0)
            (λ x.
              Sends-bind 1 (1 + k) (try_ request)
                (after_request platform timeline target.public_guid again)
                (Sends-try 1 request
                  (Sends-apply_request target.public_guid (intent_request w.operation n)))
                (λ answer. Sends-after_request target.public_guid again k answer h))).at
          w;
  }

  Sends-check_version :
      (opts : Options) (d : Details) → Sends 0 (check_version platform timeline opts d)
  unfolding check_version
  Sends-check_version opts d =
      elim (Bool-cases (has_version opts.required_current_version d.version)) [
        | inl same ↦ rw same (Sends-pure (ok tt) 0)
        | inr other ↦ rw other (
            Sends-bind 0 0
              (mark timeline (mark_manual_review "required_entitlement_version_changed"))
              (λ x. raise (some "required_entitlement_version_changed"))
              (Sends-mark platform timeline
                (mark_manual_review "required_entitlement_version_changed") 0)
              (λ x. Sends-pure (err (some "required_entitlement_version_changed")) 0))
      ]

  -- Three requests a round.
  Sends-rounds :
      (n : ℕ) (last : Code) (target : Target) (opts : Options)
      → Sends (n * 3) (rounds platform timeline n last target opts)
  unfolding rounds
  Sends-rounds zero last target opts = Sends-pure (err last) 0
  Sends-rounds (suc n) last target opts =
      let conflict : Code = some "entitlement_operation_version_conflict" in
      let again = rounds platform timeline n conflict target opts in
      Sends-more (1 + (0 + (0 + (1 + (1 + n * 3))))) (suc n * 3)
        (rounds platform timeline (suc n) last target opts) (omega arith)
        (Sends-bind 1 (0 + (0 + (1 + (1 + n * 3))))
          (get_entitlement platform timeline target.public_guid)
          (λ d. check_version platform timeline opts d >>= λ x.
            send_intent platform timeline target opts d again)
          (Sends-get_entitlement target.public_guid)
          (λ d.
            Sends-bind 0 (0 + (1 + (1 + n * 3))) (check_version platform timeline opts d)
              (λ x. send_intent platform timeline target opts d again) (Sends-check_version opts d)
              (λ x.
                Sends-send_intent target opts d again (n * 3)
                  (Sends-rounds n conflict target opts))))

  Sends-start_rounds :
      (target : Target) (opts : Options) (recovered : Option AppliedEntitlement)
      → Sends 9 (start_rounds platform timeline target opts recovered)
  unfolding start_rounds
  Sends-start_rounds target opts (some a) = Sends-pure (ok a) 9
  Sends-start_rounds target opts none =
      Sends-rounds 3 (some "entitlement_operation_conflict") target opts

-- However the mediator answers and whatever is lost, an attempt to apply an operation to a
-- subscription ends, returning or raising, after at most ten requests.
pub apply_to_existing_ends :
    (platform : Platform) (timeline : ℕ → Moment) (target : Target) (opts : Options) (w : World)
    → (apply_to_existing platform timeline target opts w).1.requests ≤ w.requests + 10
unfolding apply_to_existing
apply_to_existing_ends platform timeline target opts w =
    elim (Bool-cases (is_recorded w.operation.state)) [
      | inl recorded ↦
          rw recorded (omega (arith, (Sends-read platform timeline (some target.public_guid)).at w))
      | inr fresh ↦ rw fresh (
          (Sends-bind 1 9 (recover_remote_result platform timeline)
              (start_rounds platform timeline target opts) (Sends-recover platform timeline)
              (Sends-start_rounds platform timeline target opts)).at
            w)
    ]
