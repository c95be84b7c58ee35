-- ===== src/Segments.antt =====
-- `CommercialEntitlementSegmentRepository` of repositories.py: the stretches of paid time of a
-- subscription.
pub mod Remaining
use vpn_mediator_public.Prelude.{
  ℕ, ◌+◌, ◌-◌, ◌/◌, ◌≡◌, String, Bool, true, false, ◌&&◌, ◌||◌, Option, none, some, List, [], ◌∷◌,
  ◌++◌, ltb, leb, ◌==◌, if◌then◌else◌, str_eq, max, Result, ok, err,
}
use vpn_mediator_public.Clock.{Instant, DateTime, to_aware_utc}
use vpn_mediator_public.Table.{select, find, update_where, count_where}

-- `status`: "applied" or "reversed".
pub data SegmentStatus : Type 0 where
  applied reversed : SegmentStatus

pub record Segment : Type 0 where
  pub subscription_id : ℕ
  pub source_kind : String
  pub starts_at : Instant
  pub ends_at : Instant
  pub source_order_id : Option ℕ
  pub source_entity_id : Option String
  pub idempotency_key : String
  pub status : SegmentStatus
  pub created_at : Instant
  pub reversed_at : Option Instant

-- The arguments of `create_applied_once`.
pub record NewSegment : Type 0 where
  pub subscription_id : ℕ
  pub source_kind : String
  pub starts_at : DateTime
  pub ends_at : DateTime
  pub source_order_id : Option ℕ
  pub source_entity_id : Option String
  pub idempotency_key : String

abbrev pub has_segment_key : String → Segment → Bool
has_segment_key key s = str_eq s.idempotency_key key

abbrev pub segment_of : NewSegment → Instant → Segment
segment_of n now = record {
  subscription_id = n.subscription_id;
  source_kind = n.source_kind;
  starts_at = to_aware_utc n.starts_at;
  ends_at = to_aware_utc n.ends_at;
  source_order_id = n.source_order_id;
  source_entity_id = n.source_entity_id;
  idempotency_key = n.idempotency_key;
  status = applied;
  created_at = now;
  reversed_at = none;
}

unfoldable pub create_applied_once : NewSegment → Instant → List Segment → List Segment × Segment
create_applied_once n now t = elim (find (has_segment_key n.idempotency_key) t) [
  | some existing ↦ (t, existing)
  | none ↦ (t ++ segment_of n now ∷ [], segment_of n now)
]

abbrev pub is_applied : SegmentStatus → Bool
is_applied applied = true
is_applied reversed = false

-- DEVICE_UPGRADE_PRICED_ENTITLEMENT_SOURCES, and the source of paid orders alone.
abbrev pub is_priced_source : String → Bool
is_priced_source k = str_eq k "paid_order" || str_eq k "complimentary_order"

abbrev pub is_paid_source : String → Bool
is_paid_source k = str_eq k "paid_order"

-- The WHERE of `_active_segments`.
abbrev pub is_active_segment : ℕ → (String → Bool) → Instant → Segment → Bool
is_active_segment subscription_id source now s =
    (s.subscription_id == subscription_id)
    && source s.source_kind
    && is_applied s.status
    && ltb now s.ends_at

-- One term of `_remaining_seconds`: `int` drops the fraction of a second, and what lies in the past
-- counts as 0.
abbrev pub seconds_left : Instant → Segment → ℕ
seconds_left now s = (s.ends_at - max s.starts_at now) / 1000000

unfoldable pub remaining_seconds : List Segment → Instant → ℕ
remaining_seconds [] now = 0
remaining_seconds (s ∷ t) now = seconds_left now s + remaining_seconds t now

abbrev pub is_nil {ℓ} : {A : Type ℓ} → List A → Bool
is_nil [] = true
is_nil (x ∷ xs) = false

-- `remaining_paid_seconds` of a subscription that ends at `expires_at`, to which `applications`
-- orders were applied.
unfoldable pub remaining_paid_seconds : ℕ → DateTime → ℕ → Instant → List Segment → Result String ℕ
unfolding remaining_seconds
remaining_paid_seconds subscription_id expires_at applications now t =
    let active = select (is_active_segment subscription_id is_paid_source now) t in
    if is_nil active
    then if applications == 0
      then ok ((to_aware_utc expires_at - now) / 1000000)
      else err "paid_entitlement_segments_missing"
    else ok (remaining_seconds active now)

-- `remaining_device_upgrade_seconds`, where `commercial` paid orders with a duration were applied.
unfoldable pub remaining_device_upgrade_seconds : ℕ → ℕ → Instant → List Segment → Result String ℕ
unfolding remaining_seconds
remaining_device_upgrade_seconds subscription_id commercial now t =
    let active = select (is_active_segment subscription_id is_priced_source now) t in
    if is_nil active
    then if ltb 0 (
        count_where
          (λ (s : Segment).
            (s.subscription_id == subscription_id) && is_priced_source s.source_kind)
          t)
      then ok 0
      else if ltb 0 commercial
      then err "device_upgrade_entitlement_segments_missing"
      else ok 0
    else ok (remaining_seconds active now)

abbrev pub is_of_entity : String → String → Segment → Bool
is_of_entity kind entity s =
    str_eq s.source_kind kind && is_text s.source_entity_id && is_applied s.status
  where
    is_text : Option String → Bool
    is_text none = false
    is_text (some e) = str_eq e entity

unfoldable pub remaining_seconds_for_source_entity : String → String → Instant → List Segment → ℕ
unfolding remaining_seconds
remaining_seconds_for_source_entity kind entity now t =
    remaining_seconds (select (is_of_entity kind entity) t) now

abbrev pub reverse_segment : Instant → Segment → Segment
reverse_segment now s = record s { status = reversed; reversed_at = some now }

-- `mark_reversed_for_source_entity` and `mark_reversed_for_order`, with their row counts.
unfoldable pub mark_reversed_for_source_entity :
    String → String → Instant → List Segment → List Segment × ℕ
mark_reversed_for_source_entity kind entity now t = (
  update_where (is_of_entity kind entity) (reverse_segment now) t,
  count_where (is_of_entity kind entity) t,
)

abbrev pub is_of_order : ℕ → Segment → Bool
is_of_order order_id s = is_number s.source_order_id && is_applied s.status
  where
    is_number : Option ℕ → Bool
    is_number none = false
    is_number (some i) = i == order_id

unfoldable pub mark_reversed_for_order : ℕ → Instant → List Segment → List Segment × ℕ
mark_reversed_for_order order_id now t = (
  update_where (is_of_order order_id) (reverse_segment now) t,
  count_where (is_of_order order_id) t,
)
