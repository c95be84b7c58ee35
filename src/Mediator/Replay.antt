-- ===== src/Mediator/Replay.antt =====
-- What a retry of an operation meets: its entry stays in the log, and asking again changes nothing.
use vpn_mediator_public.Prelude.{
  ◌≡◌, sym, ◌∙◌, ◌≢◌, true, eq_iff, ◌⊎◌, String, none, some, List, [], ◌∷◌, arith, inl, inr,
}
use vpn_mediator_public.Clock.{Instant}
use vpn_mediator_public.Table.{find}
use vpn_mediator_public.Table.Counts.{find-append}
use vpn_mediator_public.Table.Searches.{find-append_found}
use vpn_mediator_public.Mediator.Created.{create_subscription-find}
use vpn_mediator_public.Mediator.Log.{version_of, apply_operation-cases}
use vpn_mediator_public.Mediator.{
  OperationRequest, LoggedOperation, Mediator, Platform, applied, has_operation, logged_operation,
  is_valid_operation, entry_of, apply_operation, already_applied, apply_entitlement,
}
use vpn_mediator_public.Mediator.Calls.{
  MediatorCall, create_call, operation_call, entitlement_call, tokens_call, serve, serve_all,
}

pub apply_operation-find :
    (platform : Platform) (guid : String) (r : OperationRequest) (now : Instant) (m : Mediator)
    (i : String) (l : LoggedOperation)
    → find (has_operation i) m.log ≡ some l
    → find (has_operation i) (apply_operation platform guid r now m).0.log ≡ some l
apply_operation-find platform guid r now m i l found =
    elim (apply_operation-cases platform guid r now m) [
      | inl kept ↦ rw kept.state found
      | inr c ↦ rw c.state (
          find-append_found (has_operation i) m.log
            (logged_operation platform c.target.public_guid r (version_of c.target) now ∷ []) l
            found)
    ]

serve-find :
    (platform : Platform) (c : MediatorCall) (now : Instant) (m : Mediator) (i : String)
    (l : LoggedOperation)
    → find (has_operation i) m.log ≡ some l
    → find (has_operation i) (serve platform c now m).log ≡ some l
unfolding serve apply_entitlement
serve-find platform (create_call c) now m i l found =
    create_subscription-find platform c now m i l found
serve-find platform (operation_call guid r) now m i l found =
    apply_operation-find platform guid r now m i l found
serve-find platform (entitlement_call guid e) now m i l found = ground (arith, found)
serve-find platform (tokens_call guid active) now m i l found = found

pub serve_all-find :
    (platform : Platform) (cs : List (MediatorCall × Instant)) (m : Mediator) (i : String)
    (l : LoggedOperation)
    → find (has_operation i) m.log ≡ some l
    → find (has_operation i) (serve_all platform cs m).log ≡ some l
unfolding serve_all
serve_all-find platform [] m i l found = found
serve_all-find platform ((c, now) ∷ cs) m i l found =
    serve_all-find platform cs (serve platform c now m) i l (serve-find platform c now m i l found)

-- An answer with an entry carries the entry that the log then has under the id.
pub apply_operation-entry :
    (platform : Platform) (guid : String) (r : OperationRequest) (now : Instant) (m : Mediator)
    → let (after, answer) = apply_operation platform guid r now m in
      (entry_of answer ≡ none) ⊎ (entry_of answer ≡ find (has_operation r.operation_id) after.log)
apply_operation-entry platform guid r now m = elim (apply_operation-cases platform guid r now m) [
  | inl kept ↦ rw kept.state kept.entry
  | inr c ↦
      let entry = logged_operation platform c.target.public_guid r (version_of c.target) now in
      inr (
        rw (c.state, c.answer, entry_of)
          (sym (
            find-append (has_operation r.operation_id) m.log entry c.fresh
              (ground (arith, eq_iff r.operation_id r.operation_id)))))
]

-- A request whose id is in the log is not applied.
known-ne-applied :
    (platform : Platform) (guid : String) (r : OperationRequest) (now : Instant) (m : Mediator)
    (entry : LoggedOperation)
    → find (has_operation r.operation_id) m.log ≡ some entry
    → (apply_operation platform guid r now m).1 ≢ applied entry
unfolding apply_operation
known-ne-applied platform guid r now m entry found = ground (arith, found)

-- With the fingerprint of the entry it is known as a retry.
known-again :
    (platform : Platform) (guid : String) (r : OperationRequest) (now : Instant) (m : Mediator)
    (entry : LoggedOperation)
    → is_valid_operation platform r ≡ true
    → find (has_operation r.operation_id) m.log ≡ some entry
    → entry.request_fingerprint ≡ platform.fingerprint guid r
    → apply_operation platform guid r now m ≡ (m, already_applied entry)
unfolding apply_operation
known-again platform guid r now m entry valid found print =
    ground
      (arith, valid, found, print, eq_iff entry.request_fingerprint (platform.fingerprint guid r))

-- A request that was applied changes nothing when it is sent again, whatever is asked of the
-- mediator in between, and is answered with the entry that it made.
pub apply_operation_twice :
    (platform : Platform) (guid : String) (r : OperationRequest) (now later : Instant)
    (cs : List (MediatorCall × Instant)) (m : Mediator) (entry : LoggedOperation)
    → (apply_operation platform guid r now m).1 ≡ applied entry
    → let after = serve_all platform cs (apply_operation platform guid r now m).0 in
      apply_operation platform guid r later after ≡ (after, already_applied entry)
apply_operation_twice platform guid r now later cs m entry h =
    elim (apply_operation-cases platform guid r now m) [
      | inl kept ↦ absurd (elim kept.entry [
        | inl empty ↦ ground (arith, empty, h)
        | inr logged ↦ known-ne-applied platform guid r now m entry (ground (arith, logged, h)) h
      ])
      | inr c ↦
          let mine = logged_operation platform c.target.public_guid r (version_of c.target) now in
          let first : find (has_operation r.operation_id)
                (apply_operation platform guid r now m).0.log
              ≡ some mine =
            rw c.state (
              find-append (has_operation r.operation_id) m.log mine c.fresh
                (ground (arith, eq_iff r.operation_id r.operation_id))) in
          let still =
            serve_all-find platform cs (apply_operation platform guid r now m).0 r.operation_id mine
              first in
          let is_mine : applied mine ≡ applied entry = sym c.answer ∙ h in
          known-again platform guid r later
            (serve_all platform cs (apply_operation platform guid r now m).0) entry c.valid
            (ground (arith, still, is_mine)) (ground (arith, is_mine, c.named))
    ]
