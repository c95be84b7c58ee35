-- ===== src/Deliveries.antt =====
-- `NotificationDeliveryRepository` of repositories.py: the notifications of a subscription, each of
-- which is to be delivered once.
pub mod Held
pub mod Exclusive
use vpn_mediator_public.Prelude.{
  ℕ, ◌+◌, ◌≡◌, String, Bool, true, false, ◌&&◌, ◌||◌, Option, none, some, List, [], ◌∷◌, ◌++◌, leb,
  ◌==◌, if◌then◌else◌, str_eq,
}
use vpn_mediator_public.Clock.{Instant, minutes}
use vpn_mediator_public.Table.{find, update_where, count_where}

pub data DeliveryStatus : Type 0 where
  sending failed provider_accepted delivered : DeliveryStatus

-- The columns of the constraint `uq_notification_delivery`.
pub record DeliveryKey : Type 0 where
  pub subscription_id : ℕ
  pub notification_kind : String
  pub delivery_key : String

pub record Delivery : Type 0 where
  pub id : ℕ
  pub key : DeliveryKey
  pub delivery_bot_key : Option String
  pub status : DeliveryStatus
  pub attempt_count : ℕ
  pub last_error_code : Option String
  pub claimed_at : Option Instant
  pub send_started_at : Option Instant
  pub provider_accepted_at : Option Instant
  pub failed_at : Option Instant

abbrev pub has_key : DeliveryKey → Delivery → Bool
has_key k d =
    (d.key.subscription_id == k.subscription_id)
    && str_eq d.key.notification_kind k.notification_kind
    && str_eq d.key.delivery_key k.delivery_key

abbrev pub has_id : ℕ → Delivery → Bool
has_id i d = d.id == i

-- `delivery_bot_key or get_bot_key()`
abbrev pub bot_key_or : Option String → String → String
bot_key_or none own = own
bot_key_or (some given) own = if str_eq given "" then own else given

abbrev pub new_delivery : ℕ → DeliveryKey → String → Instant → Delivery
new_delivery id k bot_key now = record {
  id = id;
  key = k;
  delivery_bot_key = some bot_key;
  status = sending;
  attempt_count = 1;
  last_error_code = none;
  claimed_at = some now;
  send_started_at = some now;
  provider_accepted_at = none;
  failed_at = none;
}

abbrev pub is_accepted : DeliveryStatus → Bool
is_accepted provider_accepted = true
is_accepted delivered = true
is_accepted _ = false

-- A claim that is not newer than `now - timedelta(minutes=15)`, or that has no moment.
abbrev pub is_stale_claim : Instant → Option Instant → Bool
is_stale_claim now none = true
is_stale_claim now (some t) = leb (t + minutes 15) now

abbrev pub may_send : Instant → DeliveryStatus → Option Instant → Bool
may_send now failed claimed_at = true
may_send now sending claimed_at = is_stale_claim now claimed_at
may_send now _ claimed_at = false

-- The WHERE of the UPDATE that claims a delivery again.
abbrev pub is_reclaimable : ℕ → Instant → Delivery → Bool
is_reclaimable i now d = has_id i d && may_send now d.status d.claimed_at

abbrev pub reclaimed : Instant → Delivery → Delivery
reclaimed now d = record d {
  status = sending;
  attempt_count = d.attempt_count + 1;
  last_error_code = none;
  claimed_at = some now;
  send_started_at = some now;
  failed_at = none;
}

-- The second half of `claim`, for a delivery that is stored already; its row is read again after the
-- UPDATE.
unfoldable pub claim_again : Delivery → Instant → List Delivery → List Delivery × Option Delivery
claim_again existing now t =
    if is_accepted existing.status
    then (t, none)
    else if count_where (is_reclaimable existing.id now) t == 1
    then (
      update_where (is_reclaimable existing.id now) (reclaimed now) t,
      find (has_id existing.id) (update_where (is_reclaimable existing.id now) (reclaimed now) t),
    )
    else (update_where (is_reclaimable existing.id now) (reclaimed now) t, none)

-- `claim`, where `id` is the key that the database gives to a new row, and `own` the key of
-- the bot that runs.
unfoldable pub claim_delivery :
    ℕ
    → DeliveryKey
    → Option String
    → String
    → Instant
    → List Delivery
    → List Delivery × Option Delivery
unfolding claim_again
claim_delivery id k given own now t = elim (find (has_key k) t) [
  | none ↦ (
    t ++ new_delivery id k (bot_key_or given own) now ∷ [],
    some (new_delivery id k (bot_key_or given own) now),
  )
  | some existing ↦ claim_again existing now t
]

abbrev pub accepted : Option String → Instant → Delivery → Delivery
accepted bot_key now d = record d {
  status = provider_accepted;
  provider_accepted_at = some now;
  delivery_bot_key = elim bot_key [ none ↦ d.delivery_bot_key | some key ↦ some key ];
  last_error_code = none;
}

-- `mark_provider_accepted`, and `mark_delivered`, which calls it.
unfoldable pub mark_accepted : ℕ → Option String → Instant → List Delivery → List Delivery
mark_accepted id bot_key now t = update_where (has_id id) (accepted bot_key now) t

abbrev pub failure : String → Instant → Delivery → Delivery
failure error_code now d = record d {
  status = failed;
  failed_at = some now;
  last_error_code = some error_code;
}

-- `mark_failed`; `error_code` is what `[:64]` leaves of it.
unfoldable pub mark_delivery_failed : ℕ → String → Instant → List Delivery → List Delivery
mark_delivery_failed id error_code now t = update_where (has_id id) (failure error_code now) t
