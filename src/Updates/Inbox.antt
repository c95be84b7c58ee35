-- ===== src/Updates/Inbox.antt =====
-- `TelegramUpdateInboxRepository`. A statement that reads the clock takes the moment as `now`; the
-- lease, limit and delay arguments are natural numbers, since the code raises them to at least 1.
use vpn_mediator_public.Prelude.{
  ℕ, ◌+◌, String, Bool, true, false, ◌&&◌, ◌||◌, Option, none, some, List, [], ◌∷◌, ◌++◌, map, ltb,
  leb, ◌==◌, if◌then◌else◌, str_eq, take, max,
}
use vpn_mediator_public.Clock.{Instant, seconds}
use vpn_mediator_public.Table.{select, find, update_where, count_where, order_by}

pub data UpdateStatus : Type 0 where
  pending processing retry processed quarantined : UpdateStatus

pub record Row : Type 0 where
  pub id : ℕ
  pub bot_key : String
  pub update_id : ℕ
  pub payload_hash : String
  pub payload_json : String
  pub status : UpdateStatus
  pub attempt_count : ℕ
  pub claimed_by : Option String
  pub claim_expires_at : Option Instant
  pub next_attempt_at : Option Instant
  pub last_attempt_at : Option Instant
  pub failure_code : Option String
  pub last_error_message : Option String
  pub received_at : Instant
  pub processed_at : Option Instant
  pub updated_at : Instant

abbrev pub is_processing : UpdateStatus → Bool
is_processing processing = true
is_processing _ = false

-- `status.in_([PENDING, RETRY])`
abbrev pub is_waiting : UpdateStatus → Bool
is_waiting pending = true
is_waiting retry = true
is_waiting _ = false

-- `column.is_not(None) AND column <= now`
abbrev pub is_past : Option Instant → Instant → Bool
is_past none now = false
is_past (some t) now = leb t now

-- `column.is_(None) OR column <= now`
abbrev pub is_due : Option Instant → Instant → Bool
is_due none now = true
is_due (some t) now = leb t now

abbrev pub is_claimed_by : Option String → String → Bool
is_claimed_by none worker = false
is_claimed_by (some w) worker = str_eq w worker

-- (bot_key, update_id), the unique key of the table.
abbrev pub has_key : String → ℕ → Row → Bool
has_key bot_key update_id r = str_eq r.bot_key bot_key && (r.update_id == update_id)

abbrev pub new_row : ℕ → String → ℕ → String → String → Instant → Row
new_row id bot_key update_id payload_hash payload_json now = record {
  id = id;
  bot_key = bot_key;
  update_id = update_id;
  payload_hash = payload_hash;
  payload_json = payload_json;
  status = pending;
  attempt_count = 0;
  claimed_by = none;
  claim_expires_at = none;
  next_attempt_at = none;
  last_attempt_at = none;
  failure_code = none;
  last_error_message = none;
  received_at = now;
  processed_at = none;
  updated_at = now;
}

abbrev pub conflict : Instant → Row → Row
conflict now r = record r {
  status = quarantined;
  failure_code = some "update_payload_conflict";
  last_error_message = some "Same bot/update identity was received with a different payload.";
  processed_at = some now;
  claimed_by = none;
  claim_expires_at = none;
  next_attempt_at = none;
  updated_at = now;
}

-- `receive`: the table after it, and whether a row was inserted. `hash` stands for SHA-256, and
-- `id` is the key that the database gives to a new row.
unfoldable pub receive :
    (String → String) → ℕ → String → ℕ → String → Instant → List Row → List Row × Bool
receive hash id bot_key update_id payload_json now t = elim (find (has_key bot_key update_id) t) [
  | none ↦ (t ++ new_row id bot_key update_id (hash payload_json) payload_json now ∷ [], true)
  | some inbox ↦ (
    if str_eq inbox.payload_hash (hash payload_json)
        then t
        else update_where (has_key bot_key update_id) (conflict now) t,
    false,
  )
]

-- The condition under which a row may be claimed, in the SELECT and again in the UPDATE.
abbrev pub is_claimable : Instant → Row → Bool
is_claimable now r =
    is_waiting r.status || (is_processing r.status && is_past r.claim_expires_at now)

abbrev pub lease_until : Instant → ℕ → Instant
lease_until now lease_seconds = now + seconds (max lease_seconds 1)

abbrev pub claim_row : String → ℕ → Instant → Row → Row
claim_row worker lease_seconds now r = record r {
  status = processing;
  claimed_by = some worker;
  claim_expires_at = some (lease_until now lease_seconds);
  attempt_count = r.attempt_count + 1;
  last_attempt_at = some now;
  updated_at = now;
}

-- ORDER BY received_at_utc, id
abbrev pub is_earlier : Row → Row → Bool
is_earlier r s =
    ltb r.received_at s.received_at || ((r.received_at == s.received_at) && leb r.id s.id)

-- The UPDATE of one selected id, and whether it took the row.
unfoldable pub claim_one : String → ℕ → Instant → ℕ → List Row → List Row × Bool
claim_one worker lease_seconds now inbox_id t =
    let p = λ (r : Row). (r.id == inbox_id) && is_claimable now r in
    (update_where p (claim_row worker lease_seconds now) t, count_where p t == 1)

-- The loop over the selected ids: the table and `claimed_ids`.
unfoldable pub claim_all : String → ℕ → Instant → List ℕ → List Row → List Row × List ℕ
claim_all worker lease_seconds now [] t = (t, [])
claim_all worker lease_seconds now (i ∷ ids) t =
    let (t', took) = claim_one worker lease_seconds now i t in
    let (t'', rest) = claim_all worker lease_seconds now ids t' in
    (t'', if took then i ∷ rest else rest)

abbrev pub contains : ℕ → List ℕ → Bool
contains n [] = false
contains n (x ∷ xs) = (n == x) || contains n xs

-- The ids that the SELECT of `claim_due` returns.
unfoldable pub due_ids : ℕ → Instant → List Row → List ℕ
due_ids limit now t =
    map (λ (r : Row). r.id)
      (take (max limit 1)
        (order_by is_earlier (select (λ r. is_claimable now r && is_due r.next_attempt_at now) t)))

-- `claim_due`: the table and the claimed rows.
unfoldable pub claim_due : String → ℕ → ℕ → Instant → List Row → List Row × List Row
claim_due worker limit lease_seconds now t =
    let (t', claimed_ids) = claim_all worker lease_seconds now (due_ids limit now t) t in
    (t', order_by is_earlier (select (λ r. contains r.id claimed_ids) t'))

-- The row that a worker holds.
abbrev pub is_held : ℕ → String → Row → Bool
is_held inbox_id worker r =
    (r.id == inbox_id) && is_processing r.status && is_claimed_by r.claimed_by worker

abbrev pub finish : Instant → Row → Row
finish now r = record r {
  status = processed;
  payload_json = "{\"redacted\":true}";
  failure_code = none;
  last_error_message = none;
  claimed_by = none;
  claim_expires_at = none;
  next_attempt_at = none;
  processed_at = some now;
  updated_at = now;
}

unfoldable pub mark_processed : ℕ → String → Instant → List Row → List Row × Bool
mark_processed inbox_id worker now t = (
  update_where (is_held inbox_id worker) (finish now) t,
  count_where (is_held inbox_id worker) t == 1,
)

-- The arguments of `mark_failed`; `failure_code` and `error_message` are what is left of them after
-- `[:64]` and after `redact_text(...)[:512]`.
pub record Failure : Type 0 where
  pub failure_code : String
  pub error_message : String
  pub max_attempts : ℕ
  pub retry_delay_seconds : ℕ

-- `inbox.attempt_count >= max(max_attempts, 1)`
abbrev pub should_quarantine : Failure → Row → Bool
should_quarantine f r = leb (max f.max_attempts 1) r.attempt_count

abbrev pub fail : Failure → Instant → Row → Row
fail f now r = record r {
  status = if should_quarantine f r then quarantined else retry;
  failure_code = some f.failure_code;
  last_error_message = some f.error_message;
  claimed_by = none;
  claim_expires_at = none;
  next_attempt_at =
      if should_quarantine f r then none else some (now + seconds (max f.retry_delay_seconds 1));
  processed_at = if should_quarantine f r then some now else none;
  updated_at = now;
}

-- `mark_failed`: the table, and the new status if the worker still held the row.
unfoldable pub mark_failed :
    ℕ → String → Failure → Instant → List Row → List Row × Option UpdateStatus
mark_failed inbox_id worker f now t = elim (find (is_held inbox_id worker) t) [
  | none ↦ (t, none)
  | some inbox ↦
      (update_where (is_held inbox_id worker) (fail f now) t, some (fail f now inbox).status)
]
