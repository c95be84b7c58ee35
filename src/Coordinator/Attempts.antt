-- ===== src/Coordinator/Attempts.antt =====
-- Every attempt of the coordinator to apply an operation, whatever the network loses and whatever
-- others ask of the mediator meanwhile.
use vpn_mediator_public.Prelude.{
  ℕ, zero, suc, ◌≡◌, refl, String, Bool, true, false, Option, none, some, Result, ok, err, inl, inr,
  Bool-cases,
}
use vpn_mediator_public.Table.{find}
use vpn_mediator_public.Operations.Marks.{
  set_intent, mark_request_sent, mark_failed_retriable, mark_manual_review,
}
use vpn_mediator_public.Mediator.{LoggedOperation, Platform, has_operation}
use vpn_mediator_public.Coordinator.{
  Code, World, Moment, Action, mark, ◌>>=◌, pure, raise, try_, clock,
}
use vpn_mediator_public.Coordinator.Client.{
  Details, get_entitlement, get_entitlement_operation, apply_entitlement_operation,
}
use vpn_mediator_public.Coordinator.Plan.{
  AppliedEntitlement, Target, Options, intent, intent_request, is_version_conflict, reclaim,
  or_else, has_version,
}
use vpn_mediator_public.Coordinator.Apply.{
  read_result, record_remote_result, recover_from, give_up, after_recovery, after_request,
  recover_remote_result, write_intent, check_version, send_intent, rounds,
}
use vpn_mediator_public.Coordinator.Rules.{
  Postcondition, Ensures, Ensures-pure, Ensures-raise, Ensures-try, Ensures-bind,
}
use vpn_mediator_public.Coordinator.Agreement.{Agrees, mark-Ensures}
use vpn_mediator_public.Coordinator.Exactness.{
  Found, Answered, get_operation-Ensures, get_entitlement-Ensures, apply_request-Ensures,
  record-Ensures, read-Ensures,
}

-- What holds of a result that may be missing.
abbrev pub Reported : String → Option AppliedEntitlement → World → Type 0
Reported i none w = Agrees i w
Reported i (some a) w = Answered i a w

module _ (platform : Platform) (timeline : ℕ → Moment) (i : String) where
  pub some-Ensures :
      (m : Action AppliedEntitlement)
      → Ensures (Agrees i) m (Answered i) (Agrees i)
      → Ensures (Agrees i) (do a ← m; pure (some a)) (Reported i) (Agrees i)
  some-Ensures m h = Ensures-bind m (λ a. pure (some a)) h (λ a. Ensures-pure (some a) (λ w b. b))

  recover_from-Ensures :
      (found : Option LoggedOperation)
      → Ensures
          (λ w. Agrees i w × Found i found w.mediator)
          (recover_from platform timeline found)
          (Reported i)
          (Agrees i)
  unfolding recover_from
  recover_from-Ensures none = Ensures-pure none (λ w b. b.0)
  recover_from-Ensures (some l) =
      Ensures-bind (record_remote_result platform timeline l)
        (λ x. do a ← read_result platform timeline none; pure (some a))
        (record-Ensures platform timeline i l l.result_valid_until refl)
        (λ x.
          some-Ensures (read_result platform timeline none) (read-Ensures platform timeline i none))

  pub recover-Ensures :
      Ensures (Agrees i) (recover_remote_result platform timeline) (Reported i) (Agrees i)
  unfolding recover_remote_result
  recover-Ensures = record {
    at = λ w a.
        (Ensures-bind (get_entitlement_operation platform timeline w.operation.public_id)
            (recover_from platform timeline)
            (get_operation-Ensures platform timeline i w.operation.public_id a.named)
            recover_from-Ensures).at
          w a;
  }

  give_up-Ensures :
      (code : Code) (retry : Bool) (again : Action AppliedEntitlement)
      → Ensures (Agrees i) again (Answered i) (Agrees i)
      → Ensures (Agrees i) (give_up platform timeline code retry again) (Answered i) (Agrees i)
  unfolding give_up
  give_up-Ensures code true again h =
      Ensures-bind (mark timeline (reclaim code)) (λ x. again)
        (mark-Ensures timeline (reclaim code) i (λ now o. refl)) (λ x. h)
  give_up-Ensures code false again h =
      Ensures-bind (mark timeline (mark_failed_retriable (or_else code "mediator_outcome_unknown")))
        (λ x. raise code)
        (mark-Ensures timeline (mark_failed_retriable (or_else code "mediator_outcome_unknown")) i
          (λ now o. refl))
        (λ x. Ensures-raise code (λ w a. a))

  after_recovery-Ensures :
      (code : Code) (again : Action AppliedEntitlement) (recovered : Option AppliedEntitlement)
      → Ensures (Agrees i) again (Answered i) (Agrees i)
      → Ensures
          (Reported i recovered)
          (after_recovery platform timeline code again recovered)
          (Answered i)
          (Agrees i)
  unfolding after_recovery
  after_recovery-Ensures code again (some a) h = Ensures-pure a (λ w b. b)
  after_recovery-Ensures code again none h = give_up-Ensures code (is_version_conflict code) again h

  after_request-Ensures :
      (guid : String) (again : Action AppliedEntitlement) (answer : Result Code LoggedOperation)
      → Ensures (Agrees i) again (Answered i) (Agrees i)
      → Ensures
          (λ w.
            Postcondition
              (λ l w'. Agrees i w' × (find (has_operation i) w'.mediator.log ≡ some l))
              (Agrees i)
              (answer, w))
          (after_request platform timeline guid again answer)
          (Answered i)
          (Agrees i)
  unfolding after_request
  after_request-Ensures guid again (err code) h =
      Ensures-bind (recover_remote_result platform timeline)
        (after_recovery platform timeline code again) recover-Ensures
        (λ recovered. after_recovery-Ensures code again recovered h)
  after_request-Ensures guid again (ok l) h =
      Ensures-bind (record_remote_result platform timeline l)
        (λ x. read_result platform timeline (some guid))
        (record-Ensures platform timeline i l l.result_valid_until refl)
        (λ x. read-Ensures platform timeline i (some guid))

  send_intent-Ensures :
      (target : Target) (opts : Options) (d : Details) (again : Action AppliedEntitlement)
      → Ensures (Agrees i) again (Answered i) (Agrees i)
      → Ensures
          (Agrees i)
          (send_intent platform timeline target opts d again)
          (Answered i)
          (Agrees i)
  unfolding send_intent write_intent
  send_intent-Ensures target opts d again h = record {
    at = λ w a.
        let n = intent w.operation target d opts (clock timeline w) in
        let request =
          apply_entitlement_operation platform timeline target.public_guid
            (intent_request w.operation n) in
        (Ensures-bind (write_intent platform timeline n)
            (λ x. try_ request >>= after_request platform timeline target.public_guid again)
            (mark-Ensures timeline (λ now o. mark_request_sent now (set_intent n now o)) i
              (λ now o. refl))
            (λ x.
              Ensures-bind (try_ request) (after_request platform timeline target.public_guid again)
                (Ensures-try request (
                  apply_request-Ensures platform timeline i target.public_guid
                    (intent_request w.operation n) a.named))
                (λ answer. after_request-Ensures target.public_guid again answer h))).at
          w a;
  }

  check_version-Ensures :
      (opts : Options) (d : Details)
      → Ensures (Agrees i) (check_version platform timeline opts d) (λ x w. Agrees i w) (Agrees i)
  unfolding check_version
  check_version-Ensures opts d =
      elim (Bool-cases (has_version opts.required_current_version d.version)) [
        | inl same ↦ rw same (Ensures-pure tt (λ w a. a))
        | inr other ↦ rw other (
            Ensures-bind (mark timeline (mark_manual_review "required_entitlement_version_changed"))
              (λ x. raise (some "required_entitlement_version_changed"))
              (mark-Ensures timeline (mark_manual_review "required_entitlement_version_changed") i
                (λ now o. refl))
              (λ x. Ensures-raise (some "required_entitlement_version_changed") (λ w a. a)))
      ]

  pub rounds-Ensures :
      (n : ℕ) (last : Code) (target : Target) (opts : Options)
      → Ensures (Agrees i) (rounds platform timeline n last target opts) (Answered i) (Agrees i)
  unfolding rounds
  rounds-Ensures zero last target opts = Ensures-raise last (λ w a. a)
  rounds-Ensures (suc n) last target opts =
      let conflict = some "entitlement_operation_version_conflict" in
      Ensures-bind (get_entitlement platform timeline target.public_guid) _
        (get_entitlement-Ensures platform timeline i target.public_guid)
        (λ d.
          Ensures-bind (check_version platform timeline opts d) _ (check_version-Ensures opts d)
            (λ x.
              send_intent-Ensures target opts d (rounds platform timeline n conflict target opts)
                (rounds-Ensures n conflict target opts)))
