-- ===== src/Serialization.antt =====
-- user_operation_serialization.py: the updates of one user of one bot are handled one at a time.
-- The state is what the middleware holds for one key (bot, user); the keys do not interact. Each
-- action is the code between two awaits: the guard lock makes both accesses of the dictionary
-- atomic.
pub mod Counted
pub mod Exclusive
use vpn_mediator_public.Prelude.{
  ℕ, ◌+◌, ◌-◌, Bool, true, false, ◌&&◌, ◌||◌, not, Option, none, some, List, [], ◌∷◌, ◌++◌, ◌==◌,
  if◌then◌else◌,
}
use vpn_mediator_public.Table.{find, update_where, delete_where}

-- The fields of aiogram's objects that the middleware reads.
pub record Message : Type 0 where
  pub from_user : Option ℕ
  pub is_successful_payment : Bool

pub record Update : Type 0 where
  pub has_pre_checkout_query : Bool
  pub callback_author : Option ℕ
  pub message : Option Message
  pub edited_message : Option Message

abbrev pub message_of : Update → Option Message
message_of u = elim u.message [ none ↦ u.edited_message | some m ↦ some m ]

unfoldable pub should_bypass : Update → Bool
should_bypass u =
    u.has_pre_checkout_query
    || elim (message_of u) [ none ↦ false | some m ↦ m.is_successful_payment ]

unfoldable pub actor_id : Update → Option ℕ
actor_id u = elim u.callback_author [
  | some author ↦ some author
  | none ↦ elim (message_of u) [ none ↦ none | some m ↦ m.from_user ]
]

-- Whose lock an update is handled under; `none` is handled at once.
unfoldable pub serialized_actor : Update → Option ℕ
unfolding should_bypass actor_id
serialized_actor u = if should_bypass u then none else actor_id u

-- `_LockEntry`
pub record LockEntry : Type 0 where
  pub locked : Bool
  pub users : ℕ

-- Where a call of the middleware stands: before `async with entry.lock`, in the handler, or after
-- it and before `_release_entry`.
pub data Phase : Type 0 where
  waiting running leaving : Phase

-- A call, and the lock entry that it refers to.
pub record Task : Type 0 where
  pub id : ℕ
  pub entry : ℕ
  pub phase : Phase

-- The entry of the key in the dictionary, the entries by reference, the calls in progress that go
-- through the lock, and the numbers of those whose handlers run without it.
pub record State : Type 0 where
  pub entry : Option ℕ
  pub heap : ℕ → LockEntry
  pub next : ℕ
  pub tasks : List Task
  pub unlocked : List ℕ

abbrev pub initial : State
initial = record {
  entry = none;
  heap = λ e. record { locked = false; users = 0 };
  next = 0;
  tasks = [];
  unlocked = [];
}

abbrev pub has_task_id : ℕ → Task → Bool
has_task_id i t = t.id == i

abbrev pub is_waiting : Phase → Bool
is_waiting waiting = true
is_waiting _ = false

abbrev pub is_running : Phase → Bool
is_running running = true
is_running _ = false

abbrev pub put : ℕ → LockEntry → (ℕ → LockEntry) → ℕ → LockEntry
put e entry heap k = if k == e then entry else heap k

abbrev pub new_task : ℕ → ℕ → Task
new_task i e = record { id = i; entry = e; phase = waiting }

-- `_acquire_entry`, for the call with a new number.
unfoldable pub acquire_entry : ℕ → State → State
acquire_entry i s = elim s.entry [
  | some e ↦ record s {
    heap = put e (record (s.heap e) { users = (s.heap e).users + 1 }) s.heap;
    tasks = s.tasks ++ new_task i e ∷ [];
  }
  | none ↦ record s {
    entry = some s.next;
    heap = put s.next (record { locked = false; users = 1 }) s.heap;
    next = s.next + 1;
    tasks = s.tasks ++ new_task i s.next ∷ [];
  }
]

abbrev pub with_phase : Phase → Task → Task
with_phase phase t = record t { phase = phase }

abbrev pub move : ℕ → Phase → Bool → Task → State → State
move i phase locked t s = record s {
  heap = put t.entry (record (s.heap t.entry) { locked = locked }) s.heap;
  tasks = update_where (has_task_id i) (with_phase phase) s.tasks;
}

-- `_release_entry`: the entry of the key is dropped, whichever it is.
unfoldable pub release_entry : ℕ → Task → State → State
release_entry i t s =
    let entry = record (s.heap t.entry) { users = (s.heap t.entry).users - 1 } in
    record s {
      entry = if (entry.users == 0) && not entry.locked then none else s.entry;
      heap = put t.entry entry s.heap;
      tasks = delete_where (has_task_id i) s.tasks;
    }

-- A call arrives with an update; takes the lock; ends its handler and frees the lock; leaves, also
-- when it is cancelled while it waits for the lock.
pub data Action : Type 0 where
  arrive : ℕ → Update → Action
  lock unlock leave : ℕ → Action

abbrev pub without : ℕ → List ℕ → List ℕ
without i [] = []
without i (j ∷ t) = if j == i then without i t else j ∷ without i t

-- `__call__` up to its first await, for the key of the given actor: an update that bypasses the lock,
-- or has no actor, is in its handler at once, and one of another actor does not touch this state.
unfoldable pub enter : ℕ → ℕ → Update → State → State
unfolding serialized_actor acquire_entry
enter actor i u s = elim (serialized_actor u) [
  | none ↦ record s { unlocked = i ∷ s.unlocked }
  | some a ↦ if a == actor then acquire_entry i s else s
]

-- An action that is not possible changes nothing.
unfoldable pub perform : ℕ → Action → State → State
unfolding enter release_entry
perform actor (arrive i u) s = elim (find (has_task_id i) s.tasks) [
  | some t ↦ s
  | none ↦ enter actor i u s
]
perform actor (lock i) s = elim (find (has_task_id i) s.tasks) [
  | none ↦ s
  | some t ↦
      if is_waiting t.phase && not (s.heap t.entry).locked then move i running true t s else s
]
perform actor (unlock i) s = elim (find (has_task_id i) s.tasks) [
  | none ↦ s
  | some t ↦ if is_running t.phase then move i leaving false t s else s
]
perform actor (leave i) s = elim (find (has_task_id i) s.tasks) [
  | none ↦ record s { unlocked = without i s.unlocked }
  | some t ↦ if is_running t.phase then s else release_entry i t s
]

unfoldable pub performs : ℕ → List Action → State → State
unfolding perform
performs actor [] s = s
performs actor (a ∷ rest) s = performs actor rest (perform actor a s)
