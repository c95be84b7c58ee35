-- ===== src/Clock.antt =====
-- Instants and the conversion at the border of each function: `to_aware_utc` of repositories.py,
-- `_to_aware_utc` of entitlement_lifecycle.py and `_aware_utc` of expiration.py.
-- An instant is a number of microseconds since the first moment that `datetime` can hold, in UTC;
-- the end of that range, where Python raises `OverflowError`, is not modelled.
use vpn_mediator_public.Prelude.{ℕ, ◌*◌}

abbrev pub Instant : Type 0
Instant = ℕ

-- A `datetime`: without a zone it is its wall clock reading, with one the instant that it denotes.
pub data DateTime : Type 0 where
  naive : ℕ → DateTime
  aware : Instant → DateTime

-- `value.replace(tzinfo=UTC)` reads the wall clock as UTC; `astimezone(UTC)` keeps the instant.
abbrev pub to_aware_utc : DateTime → Instant
to_aware_utc (naive wall) = wall
to_aware_utc (aware instant) = instant

-- `timedelta(seconds=n)` and `timedelta(days=n)`
abbrev pub seconds : ℕ → ℕ
seconds n = n * 1000000

abbrev pub minutes : ℕ → ℕ
minutes n = n * 60000000

abbrev pub days : ℕ → ℕ
days n = n * 86400000000
