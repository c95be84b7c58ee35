-- ===== src/Coordinator/Progress.antt =====
-- What happens while the network holds and nobody else changes the mediator.
use vpn_mediator_public.Prelude.{
  ℕ, ◌+◌, ◌≤◌, ◌≡◌, refl, ap, String, Bool, true, false, Option, none, some, [], Result, ok, arith,
  ◌⊎◌, inl, inr,
}
use vpn_mediator_public.Clock.{Instant}
use vpn_mediator_public.Table.{find}
use vpn_mediator_public.Operations.{
  OperationState, claimed, external_unknown, has_expired, is_claimable,
}
use vpn_mediator_public.Operations.Marks.{mark_external_applied, mark_failed_retriable}
use vpn_mediator_public.Mediator.{LoggedOperation, Mediator, Platform, has_operation}
use vpn_mediator_public.Mediator.Calls.{serve_all}
use vpn_mediator_public.Coordinator.{Code, World, Moment, delivered, remote, mark, ◌>>=◌}
use vpn_mediator_public.Coordinator.Client.{
  operation_result, operation_response, get_entitlement_operation,
}
use vpn_mediator_public.Coordinator.Plan.{external_result}
use vpn_mediator_public.Coordinator.Apply.{record_result}
use vpn_mediator_public.Coordinator.Recovery.{
  Verdict, found_applied, retryable, retry, classify_found, classify,
}

-- The request is delivered, and nobody asks anything of the mediator before it.
pub record IsQuiet (e : Moment) : Type 0 where
  pub alone : e.before ≡ []
  pub arrives : e.fault ≡ delivered

pub remote_quiet :
    {A : Type 0} (platform : Platform) (timeline : ℕ → Moment)
    (f : Instant → Mediator → Mediator × A) (w : World)
    → IsQuiet (timeline w.requests)
    → let served = f (timeline w.requests).now w.mediator in
      remote platform timeline f w
      ≡ (ok served.1, record w { mediator = served.0; requests = w.requests + 1 })
unfolding remote serve_all
remote_quiet platform timeline f w q = rw (q.arrives, q.alone) refl

-- A worker died, or could not reach the mediator.
abbrev pub is_stranded : OperationState → Bool
is_stranded claimed = true
is_stranded external_unknown = true
is_stranded _ = false

-- No entry, or one that the coordinator can read and whose validity has an end.
abbrev pub IsReadable : Option LoggedOperation → Type 0
IsReadable none = Unit
IsReadable (some l) =
    (operation_result l ≡ ok l) × ((t : Instant) × (l.result_valid_until ≡ some t))

operation_response-readable :
    (found : Option LoggedOperation) → IsReadable found → operation_response found ≡ ok found
unfolding operation_response
operation_response-readable none r = refl
operation_response-readable (some l) r = rw (r.0, operation_response) refl

-- `get_entitlement_operation` in a quiet moment reads the log.
pub get_operation_quiet :
    (platform : Platform) (timeline : ℕ → Moment) (i : String) (w : World)
    → IsQuiet (timeline w.requests)
    → IsReadable (find (has_operation i) w.mediator.log)
    → get_entitlement_operation platform timeline i w
      ≡ (ok (find (has_operation i) w.mediator.log), record w { requests = w.requests + 1 })
unfolding get_entitlement_operation ◌>>=◌
get_operation_quiet platform timeline i w q readable =
    let e = remote_quiet platform timeline (λ now m. (m, find (has_operation i) m.log)) w q in
    rw (e, operation_response-readable (find (has_operation i) w.mediator.log) readable) refl

-- An operation that is given back for a retry may be claimed by anyone.
stranded-cases :
    (s : OperationState) → is_stranded s ≡ true → (s ≡ claimed) ⊎ (s ≡ external_unknown)
stranded-cases s h = ground arith

retry_stranded :
    (platform : Platform) (timeline : ℕ → Moment) (w : World)
    → is_stranded w.operation.state ≡ true
    → (code : String) × (retry platform timeline w.operation.state w ≡ (
      ok retryable,
      record w { operation = mark_failed_retriable code (timeline w.requests).now w.operation },
    ))
unfolding retry ◌>>=◌ mark
retry_stranded platform timeline w h = elim (stranded-cases w.operation.state h) [
  | inl is_claimed ↦
      ("claim_expired_before_external_result", ap (λ s. retry platform timeline s w) is_claimed)
  | inr is_unknown ↦
      ("remote_operation_not_found", ap (λ s. retry platform timeline s w) is_unknown)
]

has_expired_later :
    (now later : Instant) (claim : Option Instant)
    → has_expired now claim ≡ true
    → now ≤ later
    → has_expired later claim ≡ true
has_expired_later now later none h le = refl
has_expired_later now later (some t) h le = ground (arith, h)

abbrev pub IsReleased : Platform → ℕ → Instant → Result Code Verdict × World → Type 0
IsReleased platform i now result =
    ((result.0 ≡ ok found_applied) ⊎ (result.0 ≡ ok retryable))
    × ((owner : String) (later : Instant)
        → now ≤ later
        → is_claimable i owner later result.1.operation ≡ true)

classified :
    (platform : Platform) (timeline : ℕ → Moment) (found : Option LoggedOperation) (w : World)
    → IsReadable found
    → is_stranded w.operation.state ≡ true
    → has_expired (timeline w.requests).now w.operation.claim_expires_at ≡ true
    → IsReleased platform w.operation.id
        (timeline w.requests).now
        (classify_found platform timeline w.operation.state found w)
unfolding classify_found record_result mark ◌>>=◌
classified platform timeline none w r h x =
    let (code, e) = retry_stranded platform timeline w h in
    rw e (inr refl, λ owner later le. ground arith)
classified platform timeline (some l) w r h x =
    let (t, has) = r.1 in
    let now = (timeline w.requests).now in
    let e : classify_found platform timeline w.operation.state (some l) w ≡ (
      ok found_applied,
      record w { operation = mark_external_applied (external_result l t) now w.operation },
    ) =
      rw has refl in
    rw e (
      inl refl,
      λ owner later le.
          ground (arith, has_expired_later now later w.operation.claim_expires_at x le),
    )

-- An operation whose worker is gone, with an expired claim, is released by the recovery worker in a
-- quiet moment: it is found applied or given back for a retry, and from then on anyone may claim it.
-- The condition is that the mediator's log has no entry of the operation, or one that the coordinator
-- can read: its versions and limit are positive, and it names the end of the validity.
pub classify_releases :
    (platform : Platform) (timeline : ℕ → Moment) (w : World)
    → IsQuiet (timeline w.requests)
    → IsReadable (find (has_operation w.operation.public_id) w.mediator.log)
    → is_stranded w.operation.state ≡ true
    → has_expired (timeline (w.requests + 1)).now w.operation.claim_expires_at ≡ true
    → IsReleased platform w.operation.id
        (timeline (w.requests + 1)).now
        (classify platform timeline w)
unfolding classify ◌>>=◌
classify_releases platform timeline w q readable h x =
    rw (get_operation_quiet platform timeline w.operation.public_id w q readable) (
      classified platform timeline (find (has_operation w.operation.public_id) w.mediator.log)
        (record w { requests = w.requests + 1 }) readable h x)
