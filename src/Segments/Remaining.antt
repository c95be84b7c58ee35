-- ===== src/Segments/Remaining.antt =====
-- How much paid time is left, as time passes and as orders are reversed.
use vpn_mediator_public.Prelude.{
  ◌*◌, ◌<◌, ◌⊎◌, All, ◌&&◌, leb, ltb, ℕ, ◌+◌, ◌≤◌, ◌≡◌, String, Bool, List, [], ◌∷◌, arith, true,
  false, Bool-cases, Option-cases, none, some, ◌==◌, inl, inr,
}
use vpn_mediator_public.Clock.{Instant, seconds}
use vpn_mediator_public.Table.{select, count_where}
use vpn_mediator_public.Segments.{
  Segment, is_active_segment, is_applied, seconds_left, remaining_seconds, is_of_order,
  mark_reversed_for_order,
}

-- The seconds that are left of a subscription's segments from the given sources.
abbrev pub left : ℕ → (String → Bool) → Instant → List Segment → ℕ
left subscription_id source now t =
    remaining_seconds (select (is_active_segment subscription_id source now) t) now

abbrev pub is_bought_by : ℕ → Segment → Bool
is_bought_by order_id s = elim s.source_order_id [ none ↦ false | some i ↦ i == order_id ]

bought-is_of_order :
    (order_id : ℕ) (s : Segment)
    → is_bought_by order_id s ≡ true
    → is_applied s.status ≡ true
    → is_of_order order_id s ≡ true
bought-is_of_order order_id s own live = elim (Option-cases s.source_order_id) [
  | inl e ↦ ground (arith, e, own, live)
  | inr (i, e) ↦ ground (arith, e, own, live)
]

unbought-is_of_order :
    (order_id : ℕ) (s : Segment) → is_bought_by order_id s ≡ false → is_of_order order_id s ≡ false
unbought-is_of_order order_id s other = elim (Option-cases s.source_order_id) [
  | inl e ↦ ground (arith, e)
  | inr (i, e) ↦ ground (arith, e, other)
]

-- Reversing an order takes away exactly the seconds that were left of the segments that it bought;
-- those of all other orders stay.
pub reversal_takes_own :
    (subscription_id order_id : ℕ) (source : String → Bool) (now : Instant) (t : List Segment)
    → left subscription_id source now (mark_reversed_for_order order_id now t).0
        + left subscription_id source now (select (is_bought_by order_id) t)
      ≡ left subscription_id source now t
unfolding mark_reversed_for_order remaining_seconds
reversal_takes_own subscription_id order_id source now [] = omega arith
reversal_takes_own subscription_id order_id source now (s ∷ t) =
    let rest = reversal_takes_own subscription_id order_id source now t in
    elim (Bool-cases (is_bought_by order_id s)) [
      | inl own ↦ elim (Bool-cases (is_active_segment subscription_id source now s)) [
        | inl active ↦
            let hit : is_of_order order_id s ≡ true =
              bought-is_of_order order_id s own (ground (arith, active)) in
            ground (arith, own, active, hit, rest)
        | inr ended ↦ ground (arith, own, ended, rest)
      ]
      | inr other ↦
          let miss : is_of_order order_id s ≡ false = unbought-is_of_order order_id s other in
          elim (Bool-cases (is_active_segment subscription_id source now s)) [
            | inl active ↦ ground (arith, other, miss, active, rest)
            | inr ended ↦ ground (arith, other, miss, ended, rest)
          ]
    ]

-- A segment that has begun at a moment and goes on past a later one.
abbrev pub is_running : Instant → Instant → Segment → Bool
is_running now later s = leb s.starts_at now && ltb later s.ends_at

running_loses :
    (now n : ℕ) (s : Segment)
    → is_running now (now + seconds n) s ≡ true
    → seconds_left now s ≡ n + seconds_left (now + seconds n) s
running_loses now n s h = ground (arith, h)

-- If each active segment either runs all the while that a number of seconds pass, or begins no sooner
-- than they have passed and lasts, then what is left shrinks by exactly that number for each segment
-- that runs, and by nothing for the others.
pub left_elapses :
    (subscription_id : ℕ) (source : String → Bool) (now n : ℕ) (t : List Segment)
    → All
        (λ (s : Segment).
          (is_running now (now + seconds n) s ≡ true)
          ⊎ ((now < s.starts_at) × (now + seconds n ≤ s.starts_at) × (s.starts_at < s.ends_at)))
        (select (is_active_segment subscription_id source now) t)
    → left subscription_id source now t
      ≡ left subscription_id source (now + seconds n) t
        + n
          * count_where
              (is_running now (now + seconds n))
              (select (is_active_segment subscription_id source now) t)
unfolding remaining_seconds
left_elapses subscription_id source now n [] h = omega arith
left_elapses subscription_id source now n (s ∷ t) h =
    let later = now + seconds n in
    elim (Bool-cases (is_active_segment subscription_id source now s)) [
      | inr ended ↦
          let rest = left_elapses subscription_id source now n t (rw ended at h) in
          let gone : is_active_segment subscription_id source later s ≡ false =
            ground (arith, ended) in
          rw (ended, gone) rest
      | inl active ↦
          let all = rw active at h in
          let rest = left_elapses subscription_id source now n t all.1 in
          elim all.0 [
            | inl runs ↦
                let still : is_active_segment subscription_id source later s ≡ true =
                  ground (arith, active, runs) in
                let loses = running_loses now n s runs in
                rw (active, still, runs) (grind (arith, loses, rest))
            | inr begins ↦
                let still : is_active_segment subscription_id source later s ≡ true =
                  ground (arith, active, begins) in
                let idle : is_running now later s ≡ false = ground (arith, begins) in
                let same : seconds_left now s ≡ seconds_left later s = ground (arith, begins) in
                rw (active, still, idle) (omega (arith, same, rest))
          ]
    ]
