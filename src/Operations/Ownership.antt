-- ===== src/Operations/Ownership.antt =====
-- Who may work on an operation.
use vpn_mediator_public.Prelude.{
  ℕ, ◌<◌, ◌≡◌, ◌≢◌, refl, ap, ◌∙◌, String, Bool, false, some, List, [], ◌∷◌, if◌then◌else◌, str_eq,
  eq_iff, All, arith, Bool-cases, inl, inr,
}
use vpn_mediator_public.Clock.{Instant}
use vpn_mediator_public.Table.{find, update_where}
use vpn_mediator_public.Table.Searches.{updated_row, find-update_any}
use vpn_mediator_public.Operations.{
  Operation, has_operation_id, is_claimable, claim_operation, claim,
}
use vpn_mediator_public.Operations.Marks.{
  Intent, set_intent, mark_request_sent, ExternalResult, mark_external_applied,
}

find-updated :
    (p q : Operation → Bool) (f : Operation → Operation) (t : List Operation) (o : Operation)
    → ((x : Operation) → p (f x) ≡ p x)
    → find p t ≡ some o
    → find p (update_where q f t) ≡ some (if q o then f o else o)
find-updated p q f t o keeps h = find-update_any p q f t keeps ∙ ap (updated_row q f) h

-- What other workers, and the owner before it has finished, do to the table: anyone may claim, and
-- the owner records its intent, its request and the answer.
pub data Call : Type 0 where
  claim_call : (operation_id : ℕ) (owner : String) (lease_seconds : ℕ) → Call
  intend : (operation_id : ℕ) (intent : Intent) → Call
  request : (operation_id : ℕ) → Call
  answer : (operation_id : ℕ) (result : ExternalResult) → Call

unfoldable pub call : Call → Instant → List Operation → List Operation
unfolding claim
call (claim_call i owner lease) now t = (claim i owner lease now t).0
call (intend i intent) now t = update_where (has_operation_id i) (set_intent intent now) t
call (request i) now t = update_where (has_operation_id i) (mark_request_sent now) t
call (answer i result) now t =
    update_where (has_operation_id i) (mark_external_applied result now) t

unfoldable pub calls : List (Call × Instant) → List Operation → List Operation
calls [] t = t
calls ((c, now) ∷ cs) t = calls cs (call c now t)

-- A claim is another worker's, before the moment; the other calls are anyone's.
abbrev pub IsForeign : String → Instant → Call × Instant → Type 0
IsForeign owner until_time (claim_call i other lease, now) = (other ≢ owner) × (now < until_time)
IsForeign owner until_time (intend i intent, now) = Unit
IsForeign owner until_time (request i, now) = Unit
IsForeign owner until_time (answer i result, now) = Unit

-- An operation that a worker has claimed until a moment.
pub record IsOwned (i : ℕ) (owner : String) (until_time : Instant) (t : List Operation)
    : Type 0 where
  pub operation : Operation
  pub found : find (has_operation_id i) t ≡ some operation
  pub owned : operation.claimed_by ≡ some owner
  pub leased : operation.claim_expires_at ≡ some until_time

refused :
    (i : ℕ) (owner other : String) (now until_time : Instant) (o : Operation)
    → o.claimed_by ≡ some owner
    → o.claim_expires_at ≡ some until_time
    → other ≢ owner
    → now < until_time
    → is_claimable i other now o ≡ false
refused i owner other now until_time o owned leased ne h = elim (Bool-cases (str_eq owner other)) [
  | inl same ↦ absurd (ground (arith, same, eq_iff owner other))
  | inr differ ↦ ground (arith, owned, leased, differ, h)
]

call-IsOwned :
    (i : ℕ) (owner : String) (until_time : Instant) (c : Call) (now : Instant) (t : List Operation)
    → IsOwned i owner until_time t
    → IsForeign owner until_time (c, now)
    → IsOwned i owner until_time (call c now t)
unfolding call claim
call-IsOwned i owner until_time (claim_call j other lease) now t v foreign =
    let kept =
      find-updated (has_operation_id i) (is_claimable j other now) (claim_operation other lease now)
        t v.operation (λ x. refl) v.found in
    let no =
      refused j owner other now until_time v.operation v.owned v.leased foreign.0 foreign.1 in
    record { operation = v.operation; found = rw no at kept; owned = v.owned; leased = v.leased }
call-IsOwned i owner until_time (intend j intent) now t v foreign = record {
  operation =
      if has_operation_id j v.operation then set_intent intent now v.operation else v.operation;
  found =
      find-updated (has_operation_id i) (has_operation_id j) (set_intent intent now) t v.operation
        (λ x. refl) v.found;
  owned = ground (arith, v.owned);
  leased = ground (arith, v.leased);
}
call-IsOwned i owner until_time (request j) now t v foreign = record {
  operation =
      if has_operation_id j v.operation then mark_request_sent now v.operation else v.operation;
  found =
      find-updated (has_operation_id i) (has_operation_id j) (mark_request_sent now) t v.operation
        (λ x. refl) v.found;
  owned = ground (arith, v.owned);
  leased = ground (arith, v.leased);
}
call-IsOwned i owner until_time (answer j result) now t v foreign = record {
  operation =
      if has_operation_id j v.operation
      then mark_external_applied result now v.operation
      else v.operation;
  found =
      find-updated (has_operation_id i) (has_operation_id j) (mark_external_applied result now) t
        v.operation (λ x. refl) v.found;
  owned = ground (arith, v.owned);
  leased = ground (arith, v.leased);
}

-- An operation that a worker has claimed stays its own until the claim ends, whatever other workers
-- try to claim and whatever intents, requests and answers are recorded meanwhile.
pub calls-IsOwned :
    (i : ℕ) (owner : String) (until_time : Instant) (cs : List (Call × Instant))
    (t : List Operation)
    → IsOwned i owner until_time t
    → All (IsForeign owner until_time) cs
    → IsOwned i owner until_time (calls cs t)
unfolding calls
calls-IsOwned i owner until_time [] t v foreign = v
calls-IsOwned i owner until_time ((c, now) ∷ cs) t v foreign =
    calls-IsOwned i owner until_time cs (call c now t)
      (call-IsOwned i owner until_time c now t v foreign.0) foreign.1
