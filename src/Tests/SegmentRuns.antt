-- ===== src/Tests/SegmentRuns.antt =====
-- Paid segments of a subscription at concrete moments, in seconds from the first one's start.
use vpn_mediator_public.Prelude.{
  inl, inr, ℕ, ◌+◌, ◌*◌, ◌≡◌, refl, String, none, some, List, [], ◌∷◌, arith,
}
use vpn_mediator_public.Clock.{Instant}
use vpn_mediator_public.Table.{select, count_where}
use vpn_mediator_public.Segments.{
  is_active_segment, Segment, applied, is_paid_source, remaining_seconds, mark_reversed_for_order,
}
use vpn_mediator_public.Segments.Remaining.{
  left, is_bought_by, reversal_takes_own, left_elapses, is_running,
}

abbrev at : ℕ → Instant
at seconds = seconds * 1000000

abbrev paid_segment : ℕ → ℕ → ℕ → String → Segment
paid_segment order_id starts ends key = record {
  subscription_id = 4;
  source_kind = "paid_order";
  starts_at = at starts;
  ends_at = at ends;
  source_order_id = some order_id;
  source_entity_id = none;
  idempotency_key = key;
  status = applied;
  created_at = at 0;
  reversed_at = none;
}

-- Order 7 bought the first hundred seconds, order 8 the next fifty.
abbrev two_segments : List Segment
two_segments = paid_segment 7 0 100 "order:7" ∷ paid_segment 8 100 150 "order:8" ∷ []

left_run : left 4 is_paid_source (at 40) two_segments ≡ 110
unfolding remaining_seconds
left_run = refl

reversal_takes_own_example :
    left 4 is_paid_source (at 40) (mark_reversed_for_order 8 (at 40) two_segments).0
      + left 4 is_paid_source (at 40) (select (is_bought_by 8) two_segments)
    ≡ left 4 is_paid_source (at 40) two_segments
reversal_takes_own_example = reversal_takes_own 4 8 is_paid_source (at 40) two_segments

-- Forty seconds pass, in which order 7 runs and order 8 has not begun.
left_elapses_example :
    left 4 is_paid_source (at 40) two_segments
    ≡ left 4 is_paid_source (at 80) two_segments
      + 40
        * count_where
            (is_running (at 40) (at 80))
            (select (is_active_segment 4 is_paid_source (at 40)) two_segments)
left_elapses_example =
    left_elapses 4 is_paid_source (at 40) 40 two_segments
      (inl refl, (inr (omega arith, omega arith, omega arith), tt))
