-- ===== src/Serialization/Exclusive.antt =====
-- Two handlers under the lock of one user never run at once, and no lock entry is left behind.
use vpn_mediator_public.Prelude.{
  ℕ, ◌≤◌, ◌≡◌, ◌==◌, true, false, ◌&&◌, not, none, List, [], ◌∷◌, arith, Bool-cases, Option-cases,
  inl, inr,
}
use vpn_mediator_public.Table.{find, count_where}
use vpn_mediator_public.Serialization.{
  running, leaving, State, initial, has_task_id, is_waiting, is_running, Action, arrive, lock,
  unlock, leave, perform, performs, Update, enter, without, serialized_actor,
}
use vpn_mediator_public.Serialization.Counted.{
  runs, IsCounted, initial-IsCounted, no_tasks, arrive-IsCounted, move-IsCounted, unlock_balance,
  release-IsCounted, unlocked-IsCounted,
}

enter-IsCounted :
    (actor i : ℕ) (u : Update) (s : State)
    → IsCounted s
    → find (has_task_id i) s.tasks ≡ none
    → IsCounted (enter actor i u s)
unfolding enter
enter-IsCounted actor i u s v missing = elim (Option-cases (serialized_actor u)) [
  | inl bypass ↦ rw (bypass, enter) (unlocked-IsCounted (i ∷ s.unlocked) s v)
  | inr (a, known) ↦ elim (Bool-cases (a == actor)) [
    | inl same ↦ rw (known, enter) (rw same (arrive-IsCounted i s v missing))
    | inr other ↦ rw (known, enter) (rw other v)
  ]
]

perform-IsCounted :
    (actor : ℕ) (a : Action) (s : State) → IsCounted s → IsCounted (perform actor a s)
unfolding perform
perform-IsCounted actor (arrive i u) s v = elim (Option-cases (find (has_task_id i) s.tasks)) [
  | inl missing ↦ rw (missing, perform) (enter-IsCounted actor i u s v missing)
  | inr (t, found) ↦ rw (found, perform) v
]
perform-IsCounted actor (lock i) s v = elim (Option-cases (find (has_task_id i) s.tasks)) [
  | inl missing ↦ rw (missing, perform) v
  | inr (t, found) ↦ elim (Bool-cases (is_waiting t.phase && not (s.heap t.entry).locked)) [
    | inl free ↦
        rw (found, perform)
          (rw free (move-IsCounted i running true t s v found (ground (arith, free))))
    | inr taken ↦ rw (found, perform) (rw taken v)
  ]
]
perform-IsCounted actor (unlock i) s v = elim (Option-cases (find (has_task_id i) s.tasks)) [
  | inl missing ↦ rw (missing, perform) v
  | inr (t, found) ↦ elim (Bool-cases (is_running t.phase)) [
    | inl inside ↦
        rw (found, perform)
          (rw inside
            (move-IsCounted i leaving false t s v found (unlock_balance i t s v found inside)))
    | inr outside ↦ rw (found, perform) (rw outside v)
  ]
]
perform-IsCounted actor (leave i) s v = elim (Option-cases (find (has_task_id i) s.tasks)) [
  | inl missing ↦ rw (missing, perform) (unlocked-IsCounted (without i s.unlocked) s v)
  | inr (t, found) ↦ elim (Bool-cases (is_running t.phase)) [
    | inl inside ↦ rw (found, perform) (rw inside v)
    | inr outside ↦ rw (found, perform) (rw outside (release-IsCounted i t s v found outside))
  ]
]

performs-IsCounted :
    (actor : ℕ) (actions : List Action) (s : State)
    → IsCounted s
    → IsCounted (performs actor actions s)
unfolding performs
performs-IsCounted actor [] s v = v
performs-IsCounted actor (a ∷ rest) s v =
    performs-IsCounted actor rest (perform actor a s) (perform-IsCounted actor a s v)

-- However calls of the middleware arrive, take the lock of one actor, end, are cancelled and leave, at
-- most one of those that go through that lock is in its handler, and when none of them is left in
-- progress the dictionary has forgotten the actor. Payments, pre-checkout queries and updates with no
-- actor do not go through the lock, and may be in their handlers beside that one.
pub handlers_exclusive :
    (actor : ℕ) (actions : List Action)
    → let s = performs actor actions initial in
      (count_where runs s.tasks ≤ 1) × (s.tasks ≡ [] → s.entry ≡ none)
handlers_exclusive actor actions =
    let s = performs actor actions initial in
    let v = performs-IsCounted actor actions initial initial-IsCounted in
    elim (Option-cases s.entry) [
      | inl absent ↦
          let gone = no_tasks s.entry s.tasks absent v.same_entry in
          (rw gone (omega arith), λ e. absent)
      | inr (e, present) ↦ (
        ground (arith, v.holder e present),
        λ gone. absurd (ground (arith, gone, v.used e present)),
      )
    ]
