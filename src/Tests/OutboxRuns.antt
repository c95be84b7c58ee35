-- ===== src/Tests/OutboxRuns.antt =====
-- Two notifications, two workers, and a failure.
use vpn_mediator_public.Prelude.{
  ℕ, ◌+◌, ◌≤◌, ◌<◌, ◌≡◌, refl, true, false, none, some, List, [], ◌∷◌, arith,
}
use vpn_mediator_public.Clock.{Instant, seconds}
use vpn_mediator_public.Outbox.{
  Item, new_item, failed, terminal_failed, batch, write_batch, claim_batch, is_deliverable, Retries,
  mark_failed_bounded, exponential_delay,
}
use vpn_mediator_public.Outbox.Delivery.{failure_bounded}
use vpn_mediator_public.Outbox.Batches.{
  Call, claims, fails, enqueues, has_number, serve_calls, batches_exclusive,
}
use vpn_mediator_public.Table.{find}

abbrev items : List Item
items = new_item 1 "a" "expiring" 1000 ∷ new_item 2 "b" "expired" 2000 ∷ []

abbrev retries : Retries
retries = record { max_attempts = 5; retry_base_seconds = 30; retry_max_seconds = 3600 }

first_batch : batch 15 1 3000 items ≡ new_item 1 "a" "expiring" 1000 ∷ []
unfolding batch
first_batch = refl

second_batch : batch 15 5 4000 (claim_batch 15 1 3000 items) ≡ new_item 2 "b" "expired" 2000 ∷ []
unfolding batch claim_batch write_batch
second_batch = refl

-- If another session reads before the first one has written, both have the same item.
overlapping_batches : batch 15 1 3000 items ≡ batch 15 1 3001 items
unfolding batch
overlapping_batches = refl

-- Another worker sends the second item and fails, and a third one is enqueued.
abbrev other_calls : List Call
other_calls =
    claims 15 5 4000 ∷ fails 2 retries "timeout" none 5000 ∷ enqueues 3 "c" "expired" 6000 ∷ []

batches_exclusive_example :
    find (has_number 1) (batch 15 5 7000 (serve_calls other_calls (claim_batch 15 1 3000 items)))
    ≡ none
unfolding batch
batches_exclusive_example =
    batches_exclusive 15 15 1 5 1 3000 7000 items (new_item 1 "a" "expiring" 1000) other_calls refl
      (omega arith, (refl, (refl, tt))) (omega arith)

-- Thirty seconds after the first attempt, four minutes after the fourth.
delays_double : (exponential_delay retries 1 ≡ 30) × (exponential_delay retries 4 ≡ 240)
unfolding exponential_delay
delays_double = (refl, refl)

abbrev tried : Item
tried = record (new_item 1 "a" "expiring" 1000) { attempt_count = 2 }

failure_bounded_example :
    let j = mark_failed_bounded retries "timeout" (some 7) 5000 tried in
    (5 ≤ 2
      → (j.state ≡ terminal_failed)
        × ((timeout : ℕ) (later : Instant) → is_deliverable timeout later j ≡ false))
    × (2 < 5
        → (j.state ≡ failed)
          × (5000 + seconds 1 ≤ j.available_at)
          × (5000 + seconds 7 ≤ j.available_at)
          × (j.available_at ≤ 5000 + seconds 3600)
          × ((timeout : ℕ) → is_deliverable timeout j.available_at j ≡ true))
failure_bounded_example = failure_bounded retries "timeout" (some 7) 5000 tried
