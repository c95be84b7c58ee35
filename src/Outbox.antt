-- ===== src/Outbox.antt =====
-- `NotificationOutboxRepository` of repositories.py, but for the bulk insertion of a broadcast.
-- Counts and delays are natural numbers: the code raises each delay to at least 1.
pub mod Delivery
pub mod Batches
use vpn_mediator_public.Prelude.{
  ℕ, ◌+◌, ◌-◌, ◌*◌, ◌^◌, min, max, String, Bool, true, false, ◌&&◌, ◌||◌, Option, none, some, List,
  [], ◌∷◌, ◌++◌, map, take, ltb, leb, ◌==◌, if◌then◌else◌, str_eq,
}
use vpn_mediator_public.Clock.{Instant, seconds, minutes}
use vpn_mediator_public.Table.{select, find, update_where, order_by}

pub data OutboxState : Type 0 where
  pending sending failed provider_accepted terminal_failed : OutboxState

-- The columns of `NotificationOutbox` that the operations read or change; `content` stands for the
-- kind, the payload and the references, which they only store.
pub record Item : Type 0 where
  pub id : ℕ
  pub idempotency_key : String
  pub content : String
  pub state : OutboxState
  pub attempt_count : ℕ
  pub available_at : Instant
  pub claimed_at : Option Instant
  pub provider_accepted_at : Option Instant
  pub failed_at : Option Instant
  pub delivery_bot_key : Option String
  pub last_error_code : Option String
  pub updated_at : Instant

abbrev pub has_idempotency_key : String → Item → Bool
has_idempotency_key key i = str_eq i.idempotency_key key

abbrev pub new_item : ℕ → String → String → Instant → Item
new_item id key content now = record {
  id = id;
  idempotency_key = key;
  content = content;
  state = pending;
  attempt_count = 0;
  available_at = now;
  claimed_at = none;
  provider_accepted_at = none;
  failed_at = none;
  delivery_bot_key = none;
  last_error_code = none;
  updated_at = now;
}

-- `enqueue_once_with_status`: the table, the item, and whether it was inserted.
unfoldable pub enqueue_once_with_status :
    ℕ → String → String → Instant → List Item → List Item × Item × Bool
enqueue_once_with_status id key content now t = elim (find (has_idempotency_key key) t) [
  | some existing ↦ (t, existing, false)
  | none ↦ (t ++ new_item id key content now ∷ [], new_item id key content now, true)
]

-- `state.in_(["pending", "failed"])`
abbrev pub is_waiting : OutboxState → Bool
is_waiting pending = true
is_waiting failed = true
is_waiting _ = false

abbrev pub is_sending : OutboxState → Bool
is_sending sending = true
is_sending _ = false

-- `claimed_at_utc <= now - timedelta(minutes=max(owner_timeout_minutes, 1))`, false for NULL.
abbrev pub is_stale : ℕ → Instant → Option Instant → Bool
is_stale timeout_minutes now none = false
is_stale timeout_minutes now (some t) = leb (t + minutes (max timeout_minutes 1)) now

abbrev pub is_deliverable : ℕ → Instant → Item → Bool
is_deliverable timeout_minutes now i =
    leb i.available_at now
    && (is_waiting i.state || (is_sending i.state && is_stale timeout_minutes now i.claimed_at))

-- ORDER BY available_at_utc, id
abbrev pub is_earlier : Item → Item → Bool
is_earlier i j =
    ltb i.available_at j.available_at || ((i.available_at == j.available_at) && leb i.id j.id)

-- The SELECT of `claim_batch`: the rows that it loads.
unfoldable pub batch : ℕ → ℕ → Instant → List Item → List Item
batch timeout_minutes limit now t =
    take limit (order_by is_earlier (select (is_deliverable timeout_minutes now) t))

-- The UPDATE of a loaded row, with the values that the code computes from it.
abbrev pub send : Instant → Item → Item → Item
send now loaded i = record i {
  state = sending;
  claimed_at = some now;
  attempt_count = loaded.attempt_count + 1;
  updated_at = now;
}

-- What the flush writes for the loaded rows, each by its id.
unfoldable pub write_batch : Instant → List Item → List Item → List Item
write_batch now [] t = t
write_batch now (l ∷ loaded) t =
    write_batch now loaded (update_where (λ (i : Item). i.id == l.id) (send now l) t)

-- `claim_batch`: the table in which the selected items are being sent, if no other session writes
-- between its SELECT and its flush.
unfoldable pub claim_batch : ℕ → ℕ → Instant → List Item → List Item
unfolding batch write_batch
claim_batch timeout_minutes limit now t = write_batch now (batch timeout_minutes limit now t) t

abbrev pub mark_provider_accepted : Option String → Instant → Item → Item
mark_provider_accepted bot_key now i = record i {
  state = provider_accepted;
  provider_accepted_at = some now;
  delivery_bot_key = elim bot_key [ none ↦ i.delivery_bot_key | some key ↦ some key ];
  last_error_code = none;
  updated_at = now;
}

-- `mark_failed`; `error_code` is what `[:64]` leaves of it, here and below.
unfoldable pub mark_failed : String → Option ℕ → Instant → Item → Item
mark_failed error_code retry_after_seconds now i = record i {
  state = failed;
  failed_at = some now;
  last_error_code = some error_code;
  available_at = elim retry_after_seconds [
    | none ↦ i.available_at
    | some delay ↦ now + seconds (max delay 1)
  ];
  updated_at = now;
}

unfoldable pub mark_terminal_failed : String → Instant → Item → Item
mark_terminal_failed error_code now i = record i {
  state = terminal_failed;
  failed_at = some now;
  last_error_code = some error_code;
  updated_at = now;
}

-- The settings of the retries.
pub record Retries : Type 0 where
  pub max_attempts : ℕ
  pub retry_base_seconds : ℕ
  pub retry_max_seconds : ℕ

unfoldable pub exponential_delay : Retries → ℕ → ℕ
exponential_delay r attempt_count =
    min (max r.retry_base_seconds 1 * 2 ^ (attempt_count - 1)) (max r.retry_max_seconds 1)

-- `retry_after_seconds or 0`
abbrev pub or_zero : Option ℕ → ℕ
or_zero none = 0
or_zero (some n) = n

unfoldable pub mark_failed_bounded : Retries → String → Option ℕ → Instant → Item → Item
unfolding mark_failed mark_terminal_failed
mark_failed_bounded r error_code retry_after_seconds now i =
    if leb (max r.max_attempts 1) i.attempt_count
    then mark_terminal_failed error_code now i
    else mark_failed error_code
        (some (max (or_zero retry_after_seconds) (exponential_delay r i.attempt_count))) now i
