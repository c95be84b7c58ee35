-- ===== src/Coordinator/Once.antt =====
-- An operation is applied at most once, and every success that the coordinator reports is that one
-- application, over any number of attempts.
use vpn_mediator_public.Prelude.{
  ℕ, ◌≡◌, refl, String, Bool, true, false, ◌||◌, Option, none, some, List, [], ◌∷◌, Result, ok, err,
  arith, inl, inr, Bool-cases,
}
use vpn_mediator_public.Clock.{Instant}
use vpn_mediator_public.Table.{count_where}
use vpn_mediator_public.Table.Counts.{count_found}
use vpn_mediator_public.Operations.{claim_operation, is_claimable}
use vpn_mediator_public.Operations.Marks.{mark_superseded}
use vpn_mediator_public.Mediator.{Platform, has_operation}
use vpn_mediator_public.Coordinator.{Code, World, Moment, mark, pure, clock}
use vpn_mediator_public.Coordinator.Client.{get_entitlement}
use vpn_mediator_public.Coordinator.Plan.{
  AppliedEntitlement, Target, Options, is_recorded, is_completed, no_options, observation,
}
use vpn_mediator_public.Coordinator.Apply.{
  apply_order, read_result, start_rounds, recover_remote_result, apply_to_existing, claim_row,
  is_superseded, apply_unless, apply_generic,
}
use vpn_mediator_public.Coordinator.Rules.{Postcondition, Ensures, Ensures-pure, Ensures-bind}
use vpn_mediator_public.Coordinator.Agreement.{Agrees, mark-Ensures}
use vpn_mediator_public.Coordinator.Exactness.{
  Matches, Answered, get_entitlement-Ensures, read-Ensures,
}
use vpn_mediator_public.Coordinator.Attempts.{
  Reported, recover-Ensures, rounds-Ensures, some-Ensures,
}

-- A call of the coordinator, by a worker, or of the recovery worker.
pub data Attempt : Type 0 where
  generic : (owner : String) (target : Target) (opts : Options) → Attempt
  order : (owner : String) (target : Target) → Attempt

module _ (platform : Platform) (timeline : ℕ → Moment) where
  -- One attempt after another, whether they return or raise.
  unfoldable pub run_attempts : List Attempt → World → World
  unfolding apply_generic apply_order
  run_attempts [] w = w
  run_attempts (generic owner target opts ∷ attempts) w =
      run_attempts attempts (apply_generic platform timeline owner target opts w).1
  run_attempts (order owner target ∷ attempts) w =
      run_attempts attempts (apply_order platform timeline owner target w).1

module _ (platform : Platform) (timeline : ℕ → Moment) (i : String) where
  after_Answered :
      (result : Result Code AppliedEntitlement × World)
      → Postcondition (Answered i) (Agrees i) result
      → Agrees i result.1
  after_Answered (ok a, w) b = b.0
  after_Answered (err code, w) b = b

  after_Reported :
      (result : Result Code (Option AppliedEntitlement) × World)
      → Postcondition (Reported i) (Agrees i) result
      → Agrees i result.1
  after_Reported (ok none, w) b = b
  after_Reported (ok (some a), w) b = b.0
  after_Reported (err code, w) b = b

  start_rounds-Ensures :
      (target : Target) (opts : Options) (recovered : Option AppliedEntitlement)
      → Ensures
          (Reported i recovered)
          (start_rounds platform timeline target opts recovered)
          (Answered i)
          (Agrees i)
  unfolding start_rounds
  start_rounds-Ensures target opts (some a) = Ensures-pure a (λ w b. b)
  start_rounds-Ensures target opts none =
      rounds-Ensures platform timeline i 3 (some "entitlement_operation_conflict") target opts

  existing-Ensures :
      (target : Target) (opts : Options)
      → Ensures (Agrees i) (apply_to_existing platform timeline target opts) (Answered i) (Agrees i)
  unfolding apply_to_existing
  existing-Ensures target opts = record {
    at = λ w a. elim (Bool-cases (is_recorded w.operation.state)) [
      | inl recorded ↦
          rw recorded ((read-Ensures platform timeline i (some target.public_guid)).at w a)
      | inr fresh ↦ rw fresh (
          (Ensures-bind (recover_remote_result platform timeline)
              (start_rounds platform timeline target opts) (recover-Ensures platform timeline i)
              (start_rounds-Ensures target opts)).at
            w a)
    ];
  }

  claim-Ensures :
      (owner : String)
      → Ensures (Agrees i) (claim_row platform timeline owner) (λ x w. Agrees i w) (Agrees i)
  unfolding claim_row
  claim-Ensures owner = record {
    at = λ w a.
        elim (Bool-cases (is_claimable w.operation.id owner (clock timeline w) w.operation)) [
          | inl free ↦
              rw free ((mark-Ensures timeline (claim_operation owner 120) i (λ now o. refl)).at w a)
          | inr taken ↦ rw taken a
        ];
  }

  superseded-Ensures :
      (observed : Option Instant) (target : Target)
      → Ensures
          (Agrees i)
          (is_superseded platform timeline observed target)
          (λ x w. Agrees i w)
          (Agrees i)
  unfolding is_superseded
  superseded-Ensures none target = Ensures-pure false (λ w a. a)
  superseded-Ensures (some t) target =
      Ensures-bind (get_entitlement platform timeline target.public_guid) _
        (get_entitlement-Ensures platform timeline i target.public_guid)
        (λ d. Ensures-pure _ (λ w a. a))

  unless-Ensures :
      (stale : Bool) (target : Target) (opts : Options)
      → Ensures
          (Agrees i)
          (apply_unless platform timeline stale target opts)
          (Reported i)
          (Agrees i)
  unfolding apply_unless
  unless-Ensures true target opts =
      Ensures-bind (mark timeline (mark_superseded "authoritative_entitlement_advanced"))
        (λ x. pure none)
        (mark-Ensures timeline (mark_superseded "authoritative_entitlement_advanced") i
          (λ now o. refl))
        (λ x. Ensures-pure none (λ w a. a))
  unless-Ensures false target opts =
      some-Ensures platform timeline i (apply_to_existing platform timeline target opts)
        (existing-Ensures target opts)

  generic-Ensures :
      (owner : String) (target : Target) (opts : Options)
      → Ensures
          (Agrees i)
          (apply_generic platform timeline owner target opts)
          (Reported i)
          (Agrees i)
  unfolding apply_generic
  generic-Ensures owner target opts = record {
    at = λ w a. elim (Bool-cases (is_completed w.operation.state)) [
      | inl done ↦ rw done (
          (some-Ensures platform timeline i (read_result platform timeline none)
              (read-Ensures platform timeline i none)).at
            w a)
      | inr active ↦ rw active (
          (Ensures-bind (claim_row platform timeline owner) _ (claim-Ensures owner) (λ x.
              Ensures-bind (is_superseded platform timeline (observation opts w.operation) target)
                (λ stale. apply_unless platform timeline stale target opts)
                (superseded-Ensures (observation opts w.operation) target)
                (λ stale. unless-Ensures stale target opts))).at
            w a)
    ];
  }

  order-Ensures :
      (owner : String) (target : Target)
      → Ensures (Agrees i) (apply_order platform timeline owner target) (Answered i) (Agrees i)
  unfolding apply_order
  order-Ensures owner target = record {
    at = λ w a.
        elim (Bool-cases (is_recorded w.operation.state || is_completed w.operation.state)) [
          | inl done ↦ rw done ((read-Ensures platform timeline i none).at w a)
          | inr active ↦ rw active (
              (Ensures-bind (claim_row platform timeline owner) _ (claim-Ensures owner)
                  (λ x. existing-Ensures target no_options)).at
                w a)
        ];
  }

  attempts-Agrees :
      (attempts : List Attempt) (w : World)
      → Agrees i w
      → Agrees i (run_attempts platform timeline attempts w)
  unfolding run_attempts
  attempts-Agrees [] w a = a
  attempts-Agrees (generic owner target opts ∷ attempts) w a =
      attempts-Agrees attempts (apply_generic platform timeline owner target opts w).1 (
        after_Reported (apply_generic platform timeline owner target opts w)
          ((generic-Ensures owner target opts).at w a))
  attempts-Agrees (order owner target ∷ attempts) w a =
      attempts-Agrees attempts (apply_order platform timeline owner target w).1 (
        after_Answered (apply_order platform timeline owner target w)
          ((order-Ensures owner target).at w a))

returned-Matches :
    (i : String) (result : Result Code (Option AppliedEntitlement) × World) (a : AppliedEntitlement)
    → Postcondition (Reported i) (Agrees i) result
    → result.0 ≡ ok (some a)
    → Matches i a result.1.mediator.log
returned-Matches i (ok none, w) a b h = absurd (ground (arith, h))
returned-Matches i (ok (some x), w) a b h = let e : x ≡ a = ground (arith, h) in rw (← e) b.1
returned-Matches i (err code, w) a b h = absurd (ground (arith, h))

-- However often an operation was attempted before, whatever requests and responses were lost and
-- whatever others asked of the mediator in between: if an attempt reports an entitlement, the
-- mediator's log has exactly one entry with the operation's id, and the reported version, status,
-- validity, device limit and time are those of that entry.
pub apply_generic_once :
    (platform : Platform) (timeline : ℕ → Moment) (i : String) (attempts : List Attempt) (w : World)
    (owner : String) (target : Target) (opts : Options) (a : AppliedEntitlement)
    → Agrees i w
    → (apply_generic platform timeline owner target opts
        (run_attempts platform timeline attempts w)).0
      ≡ ok (some a)
    → let after =
        (apply_generic platform timeline owner target opts
          (run_attempts platform timeline attempts w)).1.mediator.log in
      Matches i a after × (count_where (has_operation i) after ≡ 1)
apply_generic_once platform timeline i attempts w owner target opts a agrees h =
    let before = run_attempts platform timeline attempts w in
    let result = apply_generic platform timeline owner target opts before in
    let outcome =
      (generic-Ensures platform timeline i owner target opts).at before
        (attempts-Agrees platform timeline i attempts w agrees) in
    let m = returned-Matches i result a outcome h in
    (
      m,
      count_found (has_operation i) result.1.mediator.log m.entry m.found
          ((after_Reported platform timeline i result outcome).valid.unique i),
    )
