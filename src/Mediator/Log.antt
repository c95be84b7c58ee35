-- ===== src/Mediator/Log.antt =====
-- The invariant of the mediator: the log of operations and the versions of the entitlements.
use vpn_mediator_public.Prelude.{
  ℕ, ◌≤◌, ◌<◌, ◌≡◌, refl, ap, sym, ◌∙◌, String, Bool, true, ◌&&◌, none, some, List, [], ◌∷◌, ◌==◌,
  str_eq, eq_iff, All, arith, Bool-cases, Option-cases, inl, inr, ◌⊎◌,
}
use vpn_mediator_public.Clock.{Instant}
use vpn_mediator_public.Table.{find, update_where, count_where}
use vpn_mediator_public.Table.Rows.{All-append, find-passes}
use vpn_mediator_public.Table.Counts.{count-append, count_of_missing, All-mapped}
use vpn_mediator_public.Table.Searches.{find-update_any}
use vpn_mediator_public.Mediator.{
  MediatedSubscription, OperationRequest, LoggedOperation, Mediator, Platform, requested,
  has_operation, has_guid, logged_operation, put_entitlement, apply_new, commit_operation,
  apply_operation, is_valid_operation, Answer, applied, entry_of,
}

abbrev pub version_of : MediatedSubscription → ℕ
version_of s = elim s.entitlement [ none ↦ 0 | some e ↦ e.version ]

abbrev pub has_result : String → ℕ → LoggedOperation → Bool
has_result guid v l = str_eq l.public_guid guid && (l.result_version == v)

-- The operation's subscription exists, and its entitlement has reached the version that it made.
abbrev pub Covered : List MediatedSubscription → LoggedOperation → Type 0
Covered ss l =
    (s : MediatedSubscription) × (find (has_guid l.public_guid) ss ≡ some s)
    × (l.result_version ≤ version_of s)

-- An id is in the log once, a version of a subscription is made by one operation, and no
-- entitlement is behind its log.
pub record IsValid (m : Mediator) : Type 0 where
  pub unique : (i : String) → count_where (has_operation i) m.log ≤ 1
  pub versions : (guid : String) (v : ℕ) → count_where (has_result guid v) m.log ≤ 1
  pub covered : All (Covered m.subscriptions) m.log

-- A change of subscriptions that keeps their guids and lowers no version keeps the log covered.
pub Covered-update :
    (g : String) (f : MediatedSubscription → MediatedSubscription) (ss : List MediatedSubscription)
    → ((s : MediatedSubscription) → (f s).public_guid ≡ s.public_guid)
    → ((s : MediatedSubscription) → find (has_guid g) ss ≡ some s → version_of s ≤ version_of (f s))
    → (l : LoggedOperation) → Covered ss l
    → Covered (update_where (has_guid g) f ss) l
Covered-update g f ss keeps grows l (s, found, le) =
    let e =
      find-update_any (has_guid l.public_guid) (has_guid g) f ss (λ r. ground (arith, keeps r)) in
    elim (Bool-cases (has_guid g s)) [
      | inl hit ↦
          let l_guid = find-passes (has_guid l.public_guid) ss s found in
          let is_g : l.public_guid ≡ g =
            ground
              (arith, hit, l_guid, eq_iff s.public_guid g, eq_iff s.public_guid l.public_guid) in
          let grown = grows s (rw (← is_g) found) in
          (f s, ground (arith, e, found, hit), omega (arith, le, grown))
      | inr miss ↦ (s, ground (arith, e, found, miss), le)
    ]

-- No operation in a covered log made a later version than the current one.
count-has_result :
    (ss : List MediatedSubscription) (log : List LoggedOperation) (guid : String) (v : ℕ)
    (s : MediatedSubscription)
    → All (Covered ss) log
    → find (has_guid guid) ss ≡ some s
    → version_of s < v
    → count_where (has_result guid v) log ≡ 0
count-has_result ss [] guid v s c found h = refl
count-has_result ss (l ∷ log) guid v s c found h = elim (Bool-cases (str_eq l.public_guid guid)) [
  | inl hit ↦
      let is_guid : l.public_guid ≡ guid = ground (arith, hit, eq_iff l.public_guid guid) in
      let (s', found', le) = c.0 in
      let same : some s' ≡ some s = sym found' ∙ ap (λ g. find (has_guid g) ss) is_guid ∙ found in
      ground (arith, hit, le, same, h, count-has_result ss log guid v s c.1 found h)
  | inr miss ↦ ground (arith, miss, count-has_result ss log guid v s c.1 found h)
]

commit-IsValid :
    (platform : Platform) (r : OperationRequest) (now : Instant) (m : Mediator)
    (s : MediatedSubscription)
    → IsValid m
    → find (has_operation r.operation_id) m.log ≡ none
    → find (has_guid s.public_guid) m.subscriptions ≡ some s
    → IsValid (commit_operation platform r (version_of s) now s m)
commit-IsValid platform r now m s v fresh found =
    let entry = logged_operation platform s.public_guid r (version_of s) now in
    let put = put_entitlement (requested r (version_of s)) in
    let after = update_where (has_guid s.public_guid) put m.subscriptions in
    record {
      unique = λ i.
          let missing = count_of_missing (has_operation i) m.log in
          ground (
            arith,
            count-append (has_operation i) m.log entry,
            v.unique i,
            missing,
            fresh,
            eq_iff r.operation_id i,
          );
      versions = λ guid n.
          let later = count-has_result m.subscriptions m.log guid n s v.covered in
          ground (
            arith,
            count-append (has_result guid n) m.log entry,
            v.versions guid n,
            later,
            found,
            eq_iff s.public_guid guid,
          );
      covered =
          All-append (Covered after) m.log (entry ∷ [])
            (All-mapped (Covered m.subscriptions) (Covered after)
              (Covered-update s.public_guid put m.subscriptions (λ x. refl)
                (λ x h. ground (arith, h, found)))
              m.log v.covered)
            (
              (
                put s,
                ground (
                  arith,
                  find-update_any (has_guid s.public_guid) (has_guid s.public_guid) put
                      m.subscriptions (λ y. refl),
                  found,
                  find-passes (has_guid s.public_guid) m.subscriptions s found,
                ),
                omega arith,
              ),
              tt,
            );
    }

-- The log and the subscription are as a request that is committed needs them, and it was.
pub record Commits (platform : Platform) (guid : String) (r : OperationRequest) (now : Instant)
    (m : Mediator) (result : Mediator × Answer) : Type 0 where
  pub valid : is_valid_operation platform r ≡ true
  pub target : MediatedSubscription
  pub named : target.public_guid ≡ guid
  pub fresh : find (has_operation r.operation_id) m.log ≡ none
  pub found : find (has_guid target.public_guid) m.subscriptions ≡ some target
  pub state : result.0 ≡ commit_operation platform r (version_of target) now target m
  pub answer :
      result.1 ≡ applied (logged_operation platform target.public_guid r (version_of target) now)

-- Nothing changed, and an entry that the answer carries is the one in the log.
pub record Keeps (r : OperationRequest) (m : Mediator) (result : Mediator × Answer) : Type 0 where
  pub state : result.0 ≡ m
  pub entry :
      (entry_of result.1 ≡ none) ⊎ (entry_of result.1 ≡ find (has_operation r.operation_id) m.log)

-- Applying a new request changes nothing or commits it.
apply_new-cases :
    (platform : Platform) (r : OperationRequest) (now : Instant) (m : Mediator)
    (s : MediatedSubscription)
    → (((apply_new platform r now m s).0 ≡ m) × (entry_of (apply_new platform r now m s).1 ≡ none))
      ⊎ (apply_new platform r now m s ≡ (
        commit_operation platform r (version_of s) now s m,
        applied (logged_operation platform s.public_guid r (version_of s) now),
      ))
unfolding apply_new
apply_new-cases platform r now m s = ground arith

pub apply_operation-cases :
    (platform : Platform) (guid : String) (r : OperationRequest) (now : Instant) (m : Mediator)
    → Keeps r m (apply_operation platform guid r now m)
      ⊎ Commits platform guid r now m (apply_operation platform guid r now m)
unfolding apply_operation
apply_operation-cases platform guid r now m =
    elim (Option-cases (find (has_operation r.operation_id) m.log)) [
      | inr (l, logged) ↦
          inl (record { state = ground (arith, logged); entry = ground (arith, logged) })
      | inl fresh ↦ elim (Option-cases (find (has_guid guid) m.subscriptions)) [
        | inl missing ↦ inl (record {
          state = ground (arith, fresh, missing);
          entry = ground (arith, fresh, missing);
        })
        | inr (s, found) ↦ elim (Bool-cases (is_valid_operation platform r)) [
          | inr bad ↦ inl (record { state = ground (arith, bad); entry = ground (arith, bad) })
          | inl good ↦
              let e : apply_operation platform guid r now m ≡ apply_new platform r now m s =
                ground (arith, good, fresh, found) in
              let passes = find-passes (has_guid guid) m.subscriptions s found in
              let is_guid : s.public_guid ≡ guid =
                ground (arith, passes, eq_iff s.public_guid guid) in
              elim (apply_new-cases platform r now m s) [
                | inl kept ↦ inl (record {
                  state = ap (λ x. x.0) e ∙ kept.0;
                  entry = inl (ap (λ x. entry_of x.1) e ∙ kept.1);
                })
                | inr made ↦ inr (record {
                  valid = good;
                  target = s;
                  named = is_guid;
                  fresh = fresh;
                  found = ap (λ g. find (has_guid g) m.subscriptions) is_guid ∙ found;
                  state = ap (λ x. x.0) (e ∙ made);
                  answer = ap (λ x. x.1) (e ∙ made);
                })
              ]
        ]
      ]
    ]

pub apply_operation-IsValid :
    (platform : Platform) (guid : String) (r : OperationRequest) (now : Instant) (m : Mediator)
    → IsValid m
    → IsValid (apply_operation platform guid r now m).0
apply_operation-IsValid platform guid r now m v =
    elim (apply_operation-cases platform guid r now m) [
      | inl kept ↦ rw kept.state v
      | inr c ↦ rw c.state (commit-IsValid platform r now m c.target v c.fresh c.found)
    ]
