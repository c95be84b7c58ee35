-- ===== src/Outbox/Delivery.antt =====
-- Retries of a notification are bounded and spaced.
use vpn_mediator_public.Prelude.{
  ℕ, zero, suc, ◌+◌, ◌-◌, ◌*◌, ◌^◌, ◌≤◌, ◌<◌, ◌≡◌, max, String, true, false, Option, arith,
}
use vpn_mediator_public.Clock.{Instant, seconds}
use vpn_mediator_public.Outbox.{
  Item, failed, terminal_failed, is_deliverable, mark_failed, mark_terminal_failed, Retries,
  exponential_delay, or_zero, mark_failed_bounded,
}

power_pos : (n : ℕ) → 0 < 2 ^ n
power_pos zero = omega arith
power_pos (suc n) = let rest = power_pos n in omega arith

mul_pos : (a b : ℕ) → 0 < a → 0 < b → 0 < a * b
mul_pos a b ha hb = grind arith

delay_bounds :
    (r : Retries) (n : ℕ)
    → (0 < exponential_delay r n) × (exponential_delay r n ≤ max r.retry_max_seconds 1)
unfolding exponential_delay
delay_bounds r n =
    let q = mul_pos (max r.retry_base_seconds 1) (2 ^ (n - 1)) (omega arith) (power_pos (n - 1)) in
    (omega (arith, q), omega arith)

-- A notification whose attempts are used up fails for good and is due at no moment. Before that, a
-- failure makes it due again no sooner than a second later and than the provider asks for, and no
-- later than the longer of the longest delay and what the provider asks for.
pub failure_bounded :
    (r : Retries) (error_code : String) (after : Option ℕ) (now : Instant) (i : Item)
    → let j = mark_failed_bounded r error_code after now i in
      (max r.max_attempts 1 ≤ i.attempt_count
        → (j.state ≡ terminal_failed)
          × ((timeout : ℕ) (later : Instant) → is_deliverable timeout later j ≡ false))
      × (i.attempt_count < max r.max_attempts 1
          → (j.state ≡ failed)
            × (now + seconds 1 ≤ j.available_at)
            × (now + seconds (or_zero after) ≤ j.available_at)
            × (j.available_at ≤ now + seconds (max (or_zero after) (max r.retry_max_seconds 1)))
            × ((timeout : ℕ) → is_deliverable timeout j.available_at j ≡ true))
unfolding mark_failed_bounded mark_failed mark_terminal_failed
failure_bounded r error_code after now i =
    let d = delay_bounds r i.attempt_count in
    (
      λ used. (ground (arith, used), λ timeout later. ground (arith, used)),
      λ left. (
        ground (arith, left),
        ground (arith, left, d),
        ground (arith, left, d),
        ground (arith, left, d),
        λ timeout. ground (arith, left),
      ),
    )
