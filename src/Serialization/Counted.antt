-- ===== src/Serialization/Counted.antt =====
-- The dictionary entry of a user counts the calls in progress, and its lock the one that runs.
use vpn_mediator_public.Prelude.{
  ℕ, ◌+◌, ◌-◌, ◌≤◌, ◌<◌, ◌≡◌, refl, Bool, true, false, ◌&&◌, not, Option, none, some, List, [], ◌∷◌,
  ◌++◌, ◌==◌, if◌then◌else◌, All, arith, Bool-cases, Option-cases, inl, inr,
}
use vpn_mediator_public.Table.{find, count_where, delete_where}
use vpn_mediator_public.Table.Rows.{All-update_where, All-append, find-All}
use vpn_mediator_public.Table.Counts.{
  count-append, count_of_missing, count-update_where, count_one_updated, count_one_deleted,
  All-delete_where, count_mono,
}
use vpn_mediator_public.Serialization.{
  Phase, Task, State, initial, has_task_id, is_running, put, new_task, acquire_entry, with_phase,
  move, release_entry,
}

abbrev pub any : Task → Bool
any t = true

abbrev pub runs : Task → Bool
runs t = is_running t.phase

-- Every call refers to the entry of the dictionary, which counts them, and whose lock is taken
-- exactly while one of them runs its handler.
pub record IsCounted (s : State) : Type 0 where
  pub one_task : (n : ℕ) → count_where (has_task_id n) s.tasks ≤ 1
  pub same_entry : All (λ (t : Task). s.entry ≡ some t.entry) s.tasks
  pub users : (e : ℕ) → s.entry ≡ some e → (s.heap e).users ≡ count_where any s.tasks
  pub used : (e : ℕ) → s.entry ≡ some e → 0 < count_where any s.tasks
  pub holder :
      (e : ℕ) → s.entry ≡ some e → count_where runs s.tasks ≡ (if (s.heap e).locked then 1 else 0)

pub initial-IsCounted : IsCounted initial
initial-IsCounted = record {
  one_task = λ n. omega arith;
  same_entry = tt;
  users = λ e h. cc;
  used = λ e h. cc;
  holder = λ e h. cc;
}

pub no_tasks :
    (entry : Option ℕ) (t : List Task)
    → entry ≡ none
    → All (λ (x : Task). entry ≡ some x.entry) t
    → t ≡ []
no_tasks entry [] h a = refl
no_tasks entry (x ∷ t) h a = absurd (ground (arith, h, a.0))

empty_of_count : (t : List Task) → count_where any t ≡ 0 → t ≡ []
empty_of_count [] h = refl
empty_of_count (x ∷ t) h = absurd (omega (arith, h))

added_once :
    (i e : ℕ) (t : List Task)
    → find (has_task_id i) t ≡ none
    → ((n : ℕ) → count_where (has_task_id n) t ≤ 1)
    → (n : ℕ) → count_where (has_task_id n) (t ++ new_task i e ∷ []) ≤ 1
added_once i e t missing one n = elim (Bool-cases (i == n)) [
  | inl same ↦
      let eq : i ≡ n = ground arith in
      let z = count_of_missing (has_task_id i) t missing in
      let z' : count_where (has_task_id n) t ≡ 0 = rw (← eq) z in
      ground (arith, count-append (has_task_id n) t (new_task i e), z')
  | inr other ↦ ground (arith, count-append (has_task_id n) t (new_task i e), one n, other)
]

pub arrive-IsCounted :
    (i : ℕ) (s : State)
    → IsCounted s
    → find (has_task_id i) s.tasks ≡ none
    → IsCounted (acquire_entry i s)
unfolding acquire_entry
arrive-IsCounted i s v missing = elim (Option-cases s.entry) [
  | inl absent ↦
      let gone : s.tasks ≡ [] = no_tasks s.entry s.tasks absent v.same_entry in
      let eq : acquire_entry i s ≡ record s {
        entry = some s.next;
        heap = put s.next (record { locked = false; users = 1 }) s.heap;
        next = s.next + 1;
        tasks = new_task i s.next ∷ [];
      } =
        ground (arith, absent, gone) in
      rw eq (record {
        one_task = λ n. ground arith;
        same_entry = (refl, tt);
        users = λ e h. ground arith;
        used = λ e h. ground arith;
        holder = λ e h. ground arith;
      })
  | inr (e, present) ↦
      let eq : acquire_entry i s ≡ record s {
        heap = put e (record (s.heap e) { users = (s.heap e).users + 1 }) s.heap;
        tasks = s.tasks ++ new_task i e ∷ [];
      } =
        ground (arith, present) in
      rw eq (record {
        one_task = added_once i e s.tasks missing v.one_task;
        same_entry =
            All-append (λ (t : Task). s.entry ≡ some t.entry) s.tasks (new_task i e ∷ [])
              v.same_entry (present, tt);
        users = λ k h.
            ground (arith, h, present, v.users e present, count-append any s.tasks (new_task i e));
        used = λ k h. ground (arith, count-append any s.tasks (new_task i e));
        holder = λ k h.
            ground
              (arith, h, present, v.holder e present, count-append runs s.tasks (new_task i e));
      })
]

-- A call that is in progress refers to the entry of the dictionary.
entry_of :
    (i : ℕ) (s : State) (t : Task)
    → IsCounted s
    → find (has_task_id i) s.tasks ≡ some t
    → s.entry ≡ some t.entry
entry_of i s t v found =
    find-All (λ (x : Task). s.entry ≡ some x.entry) (has_task_id i) s.tasks t v.same_entry found

pub move-IsCounted :
    (i : ℕ) (phase : Phase) (locked : Bool) (t : Task) (s : State)
    → IsCounted s
    → find (has_task_id i) s.tasks ≡ some t
    → (if is_running phase then 1 else 0) + (if (s.heap t.entry).locked then 1 else 0)
      ≡ (if is_running t.phase then 1 else 0) + (if locked then 1 else 0)
    → IsCounted (move i phase locked t s)
move-IsCounted i phase locked t s v found balance =
    let present = entry_of i s t v found in
    let any_kept = count-update_where any (has_task_id i) (with_phase phase) s.tasks (λ x. refl) in
    let moved =
      count_one_updated (has_task_id i) runs (with_phase phase) s.tasks t (v.one_task i) found in
    record {
      one_task = λ n.
          rw
            (count-update_where (has_task_id n) (has_task_id i) (with_phase phase) s.tasks
              (λ x. refl))
            (v.one_task n);
      same_entry =
          All-update_where (λ (x : Task). s.entry ≡ some x.entry) (has_task_id i) (with_phase phase)
            (λ x h e. h) s.tasks v.same_entry;
      users = λ k h. ground (arith, h, present, v.users t.entry present, any_kept);
      used = λ k h. ground (arith, h, v.used k h, any_kept);
      holder = λ k h. ground (arith, h, present, v.holder t.entry present, moved, balance);
    }

-- A running call holds the lock.
pub unlock_balance :
    (i : ℕ) (t : Task) (s : State)
    → IsCounted s
    → find (has_task_id i) s.tasks ≡ some t
    → is_running t.phase ≡ true
    → 0 + (if (s.heap t.entry).locked then 1 else 0) ≡ (if is_running t.phase then 1 else 0) + 0
unlock_balance i t s v found inside =
    let left_runs = count_one_deleted (has_task_id i) runs s.tasks t (v.one_task i) found in
    ground (arith, left_runs, inside, v.holder t.entry (entry_of i s t v found))

pub release-IsCounted :
    (i : ℕ) (t : Task) (s : State)
    → IsCounted s
    → find (has_task_id i) s.tasks ≡ some t
    → is_running t.phase ≡ false
    → IsCounted (release_entry i t s)
unfolding release_entry
release-IsCounted i t s v found idle =
    let present = entry_of i s t v found in
    let left = count_one_deleted (has_task_id i) any s.tasks t (v.one_task i) found in
    let left_runs = count_one_deleted (has_task_id i) runs s.tasks t (v.one_task i) found in
    let mono = count_mono runs any (delete_where (has_task_id i) s.tasks) (λ x h. refl) in
    let users = v.users t.entry present in
    let holder = v.holder t.entry present in
    elim (Bool-cases (((s.heap t.entry).users - 1 == 0) && not (s.heap t.entry).locked)) [
      | inl last ↦
          let gone =
            empty_of_count (delete_where (has_task_id i) s.tasks)
              (ground (arith, last, users, left)) in
          let eq : release_entry i t s ≡ record s {
            entry = none;
            heap =
                put t.entry (record (s.heap t.entry) { users = (s.heap t.entry).users - 1 }) s.heap;
            tasks = [];
          } =
            ground (arith, last, gone) in
          rw eq (record {
            one_task = λ n. omega arith;
            same_entry = tt;
            users = λ e h. cc;
            used = λ e h. cc;
            holder = λ e h. cc;
          })
      | inr others ↦
          let eq : release_entry i t s ≡ record s {
            heap =
                put t.entry (record (s.heap t.entry) { users = (s.heap t.entry).users - 1 }) s.heap;
            tasks = delete_where (has_task_id i) s.tasks;
          } =
            ground (arith, others) in
          rw eq (record {
            one_task = λ n. ground (
              arith,
              count_one_deleted (has_task_id i) (has_task_id n) s.tasks t (v.one_task i) found,
              v.one_task n,
            );
            same_entry =
                All-delete_where (λ (x : Task). s.entry ≡ some x.entry) (has_task_id i) s.tasks
                  v.same_entry;
            users = λ k h. ground (arith, h, present, users, left);
            used = λ k h. ground (arith, others, users, holder, left, left_runs, mono, idle);
            holder = λ k h. ground (arith, h, present, holder, left_runs, idle);
          })
    ]

-- The calls without the lock play no part in it.
pub unlocked-IsCounted :
    (numbers : List ℕ) (s : State) → IsCounted s → IsCounted (record s { unlocked = numbers })
unlocked-IsCounted numbers s v = record {
  one_task = v.one_task;
  same_entry = v.same_entry;
  users = v.users;
  used = v.used;
  holder = v.holder;
}
