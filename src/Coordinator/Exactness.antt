-- ===== src/Coordinator/Exactness.antt =====
-- What an attempt of the coordinator returns is what the mediator has in its log.
use vpn_mediator_public.Prelude.{
  ℕ, ◌≡◌, refl, ap, sym, ◌∙◌, String, Option, none, some, List, ok, arith, ◌⊎◌, inl, inr,
  Option-cases, Result-cases,
}
use vpn_mediator_public.Clock.{Instant}
use vpn_mediator_public.Table.{find}
use vpn_mediator_public.Operations.{Operation}
use vpn_mediator_public.Mediator.{
  OperationRequest, LoggedOperation, Mediator, Platform, has_operation, apply_operation, Answer,
  entry_of,
}
use vpn_mediator_public.Mediator.Log.{apply_operation-IsValid}
use vpn_mediator_public.Mediator.Replay.{apply_operation-find, apply_operation-entry}
use vpn_mediator_public.Coordinator.{World, Moment, remote, mark, lift}
use vpn_mediator_public.Coordinator.Client.{
  operation_result, operation_response, apply_response, details_response, entitlement_of,
  get_entitlement, get_entitlement_operation, apply_entitlement_operation,
}
use vpn_mediator_public.Coordinator.Plan.{AppliedEntitlement, from_operation}
use vpn_mediator_public.Coordinator.Apply.{read_result, record_result}
use vpn_mediator_public.Coordinator.Rules.{Postcondition, Ensures, Ensures-lift, Ensures-bind}
use vpn_mediator_public.Coordinator.Agreement.{view, Reflects, Agrees, remote-Ensures}

-- The log has exactly one entry of the operation, and what the coordinator returned is its result.
pub record Matches (i : String) (a : AppliedEntitlement) (log : List LoggedOperation) : Type 0 where
  pub entry : LoggedOperation
  pub found : find (has_operation i) log ≡ some entry
  pub version : a.version ≡ entry.result_version
  pub status : a.status ≡ entry.result_status
  pub valid_until : some a.valid_until ≡ entry.result_valid_until
  pub max_device_tokens : a.max_device_tokens ≡ entry.result_max_device_tokens
  pub applied_at : a.applied_at ≡ entry.applied_at

abbrev pub Found : String → Option LoggedOperation → Mediator → Type 0
Found i none m = Unit
Found i (some l) m = find (has_operation i) m.log ≡ some l

abbrev pub Answered : String → AppliedEntitlement → World → Type 0
Answered i a w = Agrees i w × Matches i a w.mediator.log

-- Only entries of the log are taken for results.
operation_response-Found :
    (i : String) (m : Mediator) (found : Option LoggedOperation) (r : Option LoggedOperation)
    → found ≡ find (has_operation i) m.log
    → operation_response found ≡ ok r
    → Found i r m
unfolding operation_response operation_result
operation_response-Found i m none r e h = ground (arith, h)
operation_response-Found i m (some l) none e h = tt
operation_response-Found i m (some l) (some result) e h = ground (arith, e, h)

apply_response-Found :
    (i : String) (m : Mediator) (answer : Answer) (l : LoggedOperation)
    → (entry_of answer ≡ none) ⊎ (entry_of answer ≡ find (has_operation i) m.log)
    → apply_response answer ≡ ok l
    → find (has_operation i) m.log ≡ some l
unfolding apply_response operation_result
apply_response-Found i m answer l e h = ground (arith, e, h)

entry_named :
    (j i : String) (result : Mediator × Answer)
    → j ≡ i
    → (entry_of result.1 ≡ none) ⊎ (entry_of result.1 ≡ find (has_operation j) result.0.log)
    → (entry_of result.1 ≡ none) ⊎ (entry_of result.1 ≡ find (has_operation i) result.0.log)
entry_named j i result e (inl empty) = inl empty
entry_named j i result e (inr found) = inr (found ∙ ap (λ k. find (has_operation k) result.0.log) e)

from_operation-Matches :
    (i : String) (guid : Option String) (o : Operation) (now : Instant) (log : List LoggedOperation)
    (a : AppliedEntitlement)
    → o.public_id ≡ i
    → (o.external_result_version ≡ none) ⊎ Reflects (view o) log
    → from_operation guid o now ≡ ok a
    → Matches i a log
unfolding from_operation
from_operation-Matches i guid o now log a named (inl empty) h = absurd (ground (arith, empty, h))
from_operation-Matches i guid o now log a named (inr r) h =
    elim (Option-cases o.external_result_valid_until) [
      | inl missing ↦ absurd (ground (arith, missing, r.version, r.status, h))
      | inr (t, has) ↦ record {
        entry = r.entry;
        found = ap (λ x. find (has_operation x) log) (sym named) ∙ r.found;
        version = ground (arith, h, r.version, r.status, r.device_limit, has);
        status = ground (arith, h, r.version, r.status, r.device_limit, has);
        valid_until = ground (arith, h, r.version, r.status, r.device_limit, has, r.valid_until);
        max_device_tokens = ground (arith, h, r.version, r.status, r.device_limit, has);
        applied_at = ground (arith, h, r.version, r.status, r.device_limit, has, r.applied_at);
      }
    ]

module _ (platform : Platform) (timeline : ℕ → Moment) (i : String) where
  pub get_operation-Ensures :
      (j : String)
      → j ≡ i
      → Ensures
          (Agrees i)
          (get_entitlement_operation platform timeline j)
          (λ r w. Agrees i w × Found i r w.mediator)
          (Agrees i)
  unfolding get_entitlement_operation
  get_operation-Ensures j e =
      Ensures-bind (remote platform timeline (λ now m. (m, find (has_operation j) m.log)))
        (λ found. lift (operation_response found))
        (remote-Ensures platform timeline (λ now m. (m, find (has_operation j) m.log))
          (λ found m. found ≡ find (has_operation i) m.log) i
          (λ now m. record { valid = λ v. v; grows = λ k l h. h })
          (λ now m. ap (λ k. find (has_operation k) m.log) e))
        (λ found.
          Ensures-lift (operation_response found)
            (λ r h w b. (b.0, operation_response-Found i w.mediator found r b.1 h)) (λ w b. b.0))

  pub get_entitlement-Ensures :
      (guid : String)
      → Ensures (Agrees i) (get_entitlement platform timeline guid) (λ d w. Agrees i w) (Agrees i)
  unfolding get_entitlement
  get_entitlement-Ensures guid =
      Ensures-bind (remote platform timeline (λ now m. (m, entitlement_of guid m)))
        (λ found. lift (details_response found))
        (remote-Ensures platform timeline (λ now m. (m, entitlement_of guid m))
          (λ found m. Unit {0}) i (λ now m. record { valid = λ v. v; grows = λ k l h. h })
          (λ now m. tt))
        (λ found. Ensures-lift (details_response found) (λ d h w b. b.0) (λ w b. b.0))

  pub apply_request-Ensures :
      (guid : String) (r : OperationRequest)
      → r.operation_id ≡ i
      → Ensures
          (Agrees i)
          (apply_entitlement_operation platform timeline guid r)
          (λ l w. Agrees i w × (find (has_operation i) w.mediator.log ≡ some l))
          (Agrees i)
  unfolding apply_entitlement_operation
  apply_request-Ensures guid r e =
      Ensures-bind (remote platform timeline (apply_operation platform guid r))
        (λ answer. lift (apply_response answer))
        (remote-Ensures platform timeline (apply_operation platform guid r)
          (λ answer m. (entry_of answer ≡ none) ⊎ (entry_of answer ≡ find (has_operation i) m.log))
          i
          (λ now m. record {
            valid = apply_operation-IsValid platform guid r now m;
            grows = apply_operation-find platform guid r now m;
          })
          (λ now m.
            entry_named r.operation_id i (apply_operation platform guid r now m) e
              (apply_operation-entry platform guid r now m)))
        (λ answer.
          Ensures-lift (apply_response answer)
            (λ l h w b. (b.0, apply_response-Found i w.mediator answer l b.1 h)) (λ w b. b.0))

  pub record-Ensures :
      (l : LoggedOperation) (valid_until : Option Instant)
      → valid_until ≡ l.result_valid_until
      → Ensures
          (λ w. Agrees i w × (find (has_operation i) w.mediator.log ≡ some l))
          (record_result platform timeline l valid_until)
          (λ x w. Agrees i w)
          (Agrees i)
  unfolding record_result mark
  record-Ensures l none e = record { at = λ w b. b.0 }
  record-Ensures l (some t) e = record {
    at = λ w b. record {
      valid = b.0.valid;
      named = b.0.named;
      recorded = inr (record {
        entry = l;
        found = ap (λ k. find (has_operation k) w.mediator.log) b.0.named ∙ b.1;
        version = refl;
        status = refl;
        valid_until = e;
        device_limit = refl;
        applied_at = refl;
      });
    };
  }

  pub read-Ensures :
      (guid : Option String)
      → Ensures (Agrees i) (read_result platform timeline guid) (Answered i) (Agrees i)
  unfolding read_result
  read-Ensures guid = record {
    at = λ w a.
        let now = (timeline w.requests).now in
        elim (Result-cases (from_operation guid w.operation now)) [
          | inl (a', e) ↦
              rw (e, Postcondition)
                (
                  a,
                  from_operation-Matches i guid w.operation now w.mediator.log a' a.named a.recorded
                      e,
                )
          | inr (code, e) ↦ rw (e, Postcondition) a
        ];
  }
