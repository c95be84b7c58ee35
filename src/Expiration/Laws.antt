-- ===== src/Expiration/Laws.antt =====
-- What a customer gets for the days that were bought.
use vpn_mediator_public.Prelude.{ℕ, ◌+◌, ◌≤◌, ◌<◌, ◌≡◌, true, false, some, ok, arith}
use vpn_mediator_public.Prelude.Int.{pos, pos_part}
use vpn_mediator_public.Clock.{Instant, DateTime, aware, to_aware_utc, days, minutes}
use vpn_mediator_public.Commerce.Cabinet.{calculate_renewal_valid_until}
use vpn_mediator_public.Expiration.{
  ExpirationSnapshot, TimeZone, Purchase, is_upgrade_devices, end_of_local_day,
  calculate_expiration_snapshot, access_through_date,
}

-- A time zone in which a local day starts once, is never left by turning the clock back over
-- midnight, and lasts at most 25 hours.
pub record IsZone (zone : TimeZone) : Type 0 where
  pub next_midnight_later : (t : Instant) → t < zone.midnight (zone.local_date t + 1)
  pub next_midnight_near :
      (t : Instant) → zone.midnight (zone.local_date t + 1) ≤ t + days 1 + minutes 60
  pub midnight_starts : (d : ℕ) → zone.local_date (zone.midnight d) ≡ d

module _ (zone : TimeZone) (z : IsZone zone) where
  -- Bought time is never lost: the base is no earlier than now and than the current expiry, and
  -- access ends no earlier than the bought days after the base, and at most 25 hours later. An
  -- upgrade of devices moves nothing.
  pub snapshot_grants :
      (p : Purchase) (s : ExpirationSnapshot)
      → calculate_expiration_snapshot zone p ≡ ok s
      → (to_aware_utc p.captured_now_utc ≤ s.base_expires_at_utc)
        × ((current : DateTime)
            → p.current_expires_at_utc ≡ some current
            → to_aware_utc current ≤ s.base_expires_at_utc)
        × (s.base_expires_at_utc + days s.purchased_duration_days ≤ s.target_expires_at_utc)
        × (s.target_expires_at_utc
            ≤ s.base_expires_at_utc + days s.purchased_duration_days + days 1 + minutes 60)
        × (is_upgrade_devices p.order_kind ≡ true → s.target_expires_at_utc ≡ s.base_expires_at_utc)
        × (is_upgrade_devices p.order_kind ≡ false
            → (0 < s.purchased_duration_days)
              × (pos s.purchased_duration_days ≡ p.purchased_duration_days))
  unfolding calculate_expiration_snapshot end_of_local_day
  snapshot_grants p s h =
      let nominal = s.base_expires_at_utc + days s.purchased_duration_days in
      let later = z.next_midnight_later nominal in
      let near = z.next_midnight_near nominal in
      (
        ground arith,
        λ current e. ground arith,
        ground (arith, later),
        ground (arith, near),
        λ u. ground arith,
        λ u. (ground arith, ground arith),
      )

  -- Once the calendar policy is in force, access is shown as valid through the very local date in
  -- which the bought days end.
  pub access_through_nominal_date :
      (p : Purchase) (s : ExpirationSnapshot)
      → calculate_expiration_snapshot zone p ≡ ok s
      → is_upgrade_devices p.order_kind ≡ false
      → to_aware_utc p.policy_effective_at_utc ≤ to_aware_utc p.captured_now_utc
      → access_through_date zone (aware s.target_expires_at_utc)
        ≡ zone.local_date (s.base_expires_at_utc + days s.purchased_duration_days)
  unfolding calculate_expiration_snapshot end_of_local_day access_through_date
  access_through_nominal_date p s h timed effective =
      let nominal = s.base_expires_at_utc + days s.purchased_duration_days in
      ground (arith, z.midnight_starts (zone.local_date nominal + 1))

  -- Before the calendar policy takes effect, access ends exactly where a plain renewal by the same
  -- number of days would end it, from the same current expiry and moment.
  pub legacy-eq-renewal :
      (p : Purchase) (s : ExpirationSnapshot)
      → calculate_expiration_snapshot zone p ≡ ok s
      → is_upgrade_devices p.order_kind ≡ false
      → to_aware_utc p.captured_now_utc < to_aware_utc p.policy_effective_at_utc
      → s.target_expires_at_utc
        ≡ calculate_renewal_valid_until p.current_expires_at_utc
            (pos_part p.purchased_duration_days)
            p.captured_now_utc
  unfolding calculate_expiration_snapshot calculate_renewal_valid_until
  legacy-eq-renewal p s h timed before = ground arith
