-- ===== src/Expiration.antt =====
-- expiration.py: when access that is bought now ends.
pub mod Laws
use vpn_mediator_public.Prelude.{
  ℕ, ◌+◌, ◌-◌, String, Bool, true, false, Option, none, some, ltb, leb, if◌then◌else◌, Result, ok,
  err, ◌>>=◌, ◌>>◌, raise_if,
}
use vpn_mediator_public.Prelude.Int.{ℤ, pos, pos_part, neg_part, ltb_ℤ, leb_ℤ}
use vpn_mediator_public.Clock.{Instant, DateTime, to_aware_utc, days}
use vpn_mediator_public.Pricing.Service.{OrderKind, upgrade_devices}

pub record ExpirationSnapshot : Type 0 where
  pub base_expires_at_utc : Instant
  pub purchased_duration_days : ℕ
  pub expiration_policy_version : String
  pub target_expires_at_utc : Instant

pub data ExpirationError : Type 0 where
  negative_duration duration_not_positive : ExpirationError

-- What the code takes from `zoneinfo`, for the business time zone. A date is a day number.
pub record TimeZone : Type 0 where
  -- `instant.astimezone(zone).date()`
  pub local_date : Instant → ℕ
  -- `datetime.combine(date, time.min, tzinfo=zone).astimezone(UTC)`
  pub midnight : ℕ → Instant

abbrev pub legacy_policy : String
legacy_policy = "legacy-exact-duration-v1"

-- `current if current is not None and current > now else now`
abbrev pub expiration_base : Option DateTime → Instant → Instant
expiration_base none now = now
expiration_base (some current) now =
    if ltb now (to_aware_utc current) then to_aware_utc current else now

pub record Purchase : Type 0 where
  pub current_expires_at_utc : Option DateTime
  pub captured_now_utc : DateTime
  pub purchased_duration_days : ℤ
  pub order_kind : OrderKind
  pub configured_policy_version : String
  pub policy_effective_at_utc : DateTime

abbrev pub is_upgrade_devices : OrderKind → Bool
is_upgrade_devices upgrade_devices = true
is_upgrade_devices _ = false

module _ (zone : TimeZone) where
  open zone use {local_date, midnight}

  -- The start of the local day after the one in which the duration ends.
  unfoldable pub end_of_local_day : Instant → Instant
  end_of_local_day nominal = midnight (local_date nominal + 1)

  -- The branch of a purchase that buys time.
  unfoldable pub duration_snapshot : Purchase → Instant → Result ExpirationError ExpirationSnapshot
  unfolding end_of_local_day
  duration_snapshot p base =
      let now = to_aware_utc p.captured_now_utc in
      let effective_at = to_aware_utc p.policy_effective_at_utc in
      let purchased = pos_part p.purchased_duration_days in
      if leb_ℤ p.purchased_duration_days (pos 0)
      then err duration_not_positive
      else if ltb now effective_at
      then ok (record {
        base_expires_at_utc = base;
        purchased_duration_days = purchased;
        expiration_policy_version = legacy_policy;
        target_expires_at_utc = base + days purchased;
      })
      else ok (record {
        base_expires_at_utc = base;
        purchased_duration_days = purchased;
        expiration_policy_version = p.configured_policy_version;
        target_expires_at_utc = end_of_local_day (base + days purchased);
      })

  unfoldable pub calculate_expiration_snapshot :
      Purchase → Result ExpirationError ExpirationSnapshot
  unfolding duration_snapshot
  calculate_expiration_snapshot p =
      let base = expiration_base p.current_expires_at_utc (to_aware_utc p.captured_now_utc) in
      if ltb_ℤ p.purchased_duration_days (pos 0)
      then err negative_duration
      else if is_upgrade_devices p.order_kind
      then ok (record {
        base_expires_at_utc = base;
        purchased_duration_days = 0;
        expiration_policy_version = p.configured_policy_version;
        target_expires_at_utc = base;
      })
      else duration_snapshot p base

  -- The last local date on which access is valid.
  unfoldable pub access_through_date : DateTime → ℕ
  access_through_date expires_at = local_date (to_aware_utc expires_at) - 1
