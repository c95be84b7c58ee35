-- ===== src/Updates/Valid.antt =====
-- The invariant of the rows, and that every operation keeps it.
use vpn_mediator_public.Prelude.{
  ℕ, ◌≡◌, String, Bool, true, false, ◌&&◌, Option, none, some, List, [], ◌∷◌, ◌==◌, ◌<◌, ◌⊎◌, inl,
  inr, refl, Bool-cases, Option-cases, All, arith, str_eq,
}
use vpn_mediator_public.Clock.{Instant}
use vpn_mediator_public.Table.{find}
use vpn_mediator_public.Table.Rows.{All-update_where, All-append}
use vpn_mediator_public.Updates.Inbox.{
  UpdateStatus, Row, is_processing, has_key, new_row, conflict, receive, is_claimable, claim_row,
  claim_one, claim_all, due_ids, claim_due, is_held, finish, mark_processed, Failure,
  should_quarantine, processing, retry, processed, quarantined, fail, mark_failed,
}

abbrev pub is_some {ℓ} : {A : Type ℓ} → Option A → Bool
is_some none = false
is_some (some a) = true

abbrev pub is_final : UpdateStatus → Bool
is_final processed = true
is_final quarantined = true
is_final _ = false

-- A row is leased, with an owner and an end, exactly while it is being processed; it has an end of
-- processing exactly when it is processed or quarantined; only an attempted row is being processed or
-- waits for a retry, and one that waits for a retry has a time for it.
pub record IsValid (r : Row) : Type 0 where
  pub owned : is_some r.claimed_by ≡ is_processing r.status
  pub leased : is_some r.claim_expires_at ≡ is_processing r.status
  pub ended : is_some r.processed_at ≡ is_final r.status
  pub attempted : (r.status ≡ processing) ⊎ (r.status ≡ retry) → 0 < r.attempt_count
  pub scheduled : r.status ≡ retry → is_some r.next_attempt_at ≡ true

new_row-IsValid :
    (id : ℕ) (bot_key : String) (update_id : ℕ) (h p : String) (now : Instant)
    → IsValid (new_row id bot_key update_id h p now)
new_row-IsValid id bot_key update_id h p now = ground arith

conflict-IsValid : (now : Instant) (r : Row) → IsValid (conflict now r)
conflict-IsValid now r = ground arith

claim_row-IsValid :
    (worker : String) (lease : ℕ) (now : Instant) (r : Row)
    → IsValid r
    → is_claimable now r ≡ true
    → IsValid (claim_row worker lease now r)
claim_row-IsValid worker lease now r v h = record {
  owned = refl;
  leased = refl;
  ended = rw v.ended (ground arith);
  attempted = λ e. omega arith;
  scheduled = λ e. cc;
}

finish-IsValid : (now : Instant) (r : Row) → IsValid (finish now r)
finish-IsValid now r = ground arith

fail-IsValid :
    (f : Failure) (now : Instant) (r : Row)
    → IsValid r
    → is_processing r.status ≡ true
    → IsValid (fail f now r)
fail-IsValid f now r v h = elim (Bool-cases (should_quarantine f r)) [
  | inl final ↦ rw final (record {
    owned = refl;
    leased = refl;
    ended = refl;
    attempted = λ e. ground arith;
    scheduled = λ e. cc;
  })
  | inr again ↦ rw again (record {
    owned = refl;
    leased = refl;
    ended = refl;
    attempted = λ e. v.attempted (inl (ground arith));
    scheduled = λ e. refl;
  })
]

claim_one-IsValid :
    (worker : String) (lease : ℕ) (now : Instant) (i : ℕ) (t : List Row)
    → All IsValid t
    → All IsValid (claim_one worker lease now i t).0
unfolding claim_one
claim_one-IsValid worker lease now i t h =
    All-update_where IsValid (λ r. (r.id == i) && is_claimable now r) (claim_row worker lease now)
      (λ r v p. claim_row-IsValid worker lease now r v (ground arith)) t h

claim_all-IsValid :
    (worker : String) (lease : ℕ) (now : Instant) (ids : List ℕ) (t : List Row)
    → All IsValid t
    → All IsValid (claim_all worker lease now ids t).0
unfolding claim_all
claim_all-IsValid worker lease now [] t h = h
claim_all-IsValid worker lease now (i ∷ ids) t h =
    claim_all-IsValid worker lease now ids (claim_one worker lease now i t).0
      (claim_one-IsValid worker lease now i t h)

receive-IsValid :
    (hash : String → String) (id : ℕ) (bot_key : String) (update_id : ℕ) (payload : String)
    (now : Instant) (t : List Row)
    → All IsValid t
    → All IsValid (receive hash id bot_key update_id payload now t).0
unfolding receive
receive-IsValid hash id bot_key update_id payload now t h =
    elim (Option-cases (find (has_key bot_key update_id) t)) [
      | inl missing ↦
          rw (missing, All)
            (All-append IsValid t _ h
              (new_row-IsValid id bot_key update_id (hash payload) payload now, tt))
      | inr (inbox, found) ↦
          rw (found, All)
            (elim (Bool-cases (str_eq inbox.payload_hash (hash payload))) [
              | inl same ↦ rw same h
              | inr other ↦ rw other (
                  All-update_where IsValid (has_key bot_key update_id) (conflict now)
                    (λ r v p. conflict-IsValid now r) t h)
            ])
    ]

mark_processed-IsValid :
    (i : ℕ) (worker : String) (now : Instant) (t : List Row)
    → All IsValid t
    → All IsValid (mark_processed i worker now t).0
unfolding mark_processed
mark_processed-IsValid i worker now t h =
    All-update_where IsValid (is_held i worker) (finish now) (λ r v p. finish-IsValid now r) t h

mark_failed-IsValid :
    (i : ℕ) (worker : String) (f : Failure) (now : Instant) (t : List Row)
    → All IsValid t
    → All IsValid (mark_failed i worker f now t).0
unfolding mark_failed
mark_failed-IsValid i worker f now t h = elim (Option-cases (find (is_held i worker) t)) [
  | inl missing ↦ rw (missing, All) h
  | inr (inbox, found) ↦
      rw (found, All)
        (All-update_where IsValid (is_held i worker) (fail f now)
          (λ r v p. fail-IsValid f now r v (ground arith)) t h)
]

-- The calls that change the inbox.
pub data Op : Type 0 where
  receive_update : (id : ℕ) (bot_key : String) (update_id : ℕ) (payload_json : String) → Op
  claim_due_updates : (worker : String) (limit lease_seconds : ℕ) → Op
  mark_update_processed : (inbox_id : ℕ) (worker : String) → Op
  mark_update_failed : (inbox_id : ℕ) (worker : String) (failure : Failure) → Op

-- Any sequence of calls, each at its own moment.
unfoldable pub apply : (String → String) → Op → Instant → List Row → List Row
apply hash (receive_update id bot_key update_id payload) now t =
    (receive hash id bot_key update_id payload now t).0
apply hash (claim_due_updates worker limit lease) now t = (claim_due worker limit lease now t).0
apply hash (mark_update_processed i worker) now t = (mark_processed i worker now t).0
apply hash (mark_update_failed i worker f) now t = (mark_failed i worker f now t).0

unfoldable pub run : (String → String) → List (Op × Instant) → List Row → List Row
unfolding apply
run hash [] t = t
run hash ((op, now) ∷ ops) t = run hash ops (apply hash op now t)

-- Whatever calls workers and the bot make, in whatever order and at whatever moments, every row of
-- the inbox stays valid: leased exactly while it is processed, with an end exactly when it is
-- processed or quarantined, and with a time set while it waits for a retry.
pub run-IsValid :
    (hash : String → String) (ops : List (Op × Instant)) (t : List Row)
    → All IsValid t
    → All IsValid (run hash ops t)
unfolding run claim_due
run-IsValid hash [] t h = h
run-IsValid hash ((receive_update id bot_key update_id payload, now) ∷ ops) t h =
    run-IsValid hash ops _ (receive-IsValid hash id bot_key update_id payload now t h)
run-IsValid hash ((claim_due_updates worker limit lease, now) ∷ ops) t h =
    run-IsValid hash ops _ (claim_all-IsValid worker lease now (due_ids limit now t) t h)
run-IsValid hash ((mark_update_processed i worker, now) ∷ ops) t h =
    run-IsValid hash ops _ (mark_processed-IsValid i worker now t h)
run-IsValid hash ((mark_update_failed i worker f, now) ∷ ops) t h =
    run-IsValid hash ops _ (mark_failed-IsValid i worker f now t h)
