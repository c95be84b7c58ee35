-- ===== src/Tests/UpdateRuns.antt =====
-- The update inbox at concrete inputs: two bots' updates and two workers.
use vpn_mediator_public.Prelude.{
  String, ◌≡◌, refl, true, ◌&&◌, List, [], ◌∷◌, All, arith, map, if◌then◌else◌,
}
use vpn_mediator_public.Clock.{Instant}
use vpn_mediator_public.Updates.Inbox.{
  Row, contains, is_claimable, claim_row, due_ids, claim_due, Failure, receive, new_row,
}
use vpn_mediator_public.Updates.Valid.{
  IsValid, Op, receive_update, claim_due_updates, mark_update_processed, mark_update_failed, run,
  run-IsValid,
}
use vpn_mediator_public.Updates.Leases.{claim_if, claims_exclusive}

abbrev same_text : String → String
same_text s = s

abbrev first_row : Row
first_row = new_row 1 "main" 10 "a" "a" 1000

abbrev second_row : Row
second_row = new_row 2 "main" 11 "b" "b" 2000

abbrev inbox : List Row
inbox = first_row ∷ second_row ∷ []

-- The older of the two updates is claimed first.
claim_oldest : due_ids 1 3000 inbox ≡ 1 ∷ []
unfolding due_ids
claim_oldest = refl

claims_exclusive_example :
    let first = (claim_due "worker-a" 1 60 3000 inbox).0 in
    (claim_due "worker-b" 5 60 4000 first).0
    ≡ map
        (λ (r : Row).
          if contains r.id (due_ids 1 3000 inbox) && is_claimable 3000 r
          then claim_row "worker-a" 60 3000 r
          else claim_if "worker-b" 60 4000 (due_ids 5 4000 first) r)
        inbox
claims_exclusive_example =
    claims_exclusive "worker-a" "worker-b" 1 5 60 60 3000 4000 inbox (omega arith)

abbrev failure : Failure
failure = record {
  failure_code = "handler_failed";
  error_message = "timeout";
  max_attempts = 3;
  retry_delay_seconds = 5;
}

abbrev taken_over : List Row
taken_over = claim_row "worker-b" 60 3000 first_row ∷ second_row ∷ []

abbrev calls : List (Op × Instant)
calls =
    (receive_update 1 "main" 10 "a", 1000)
    ∷ (claim_due_updates "worker-a" 5 60, 2000)
    ∷ (mark_update_failed 1 "worker-a" failure, 3000)
    ∷ (claim_due_updates "worker-b" 5 60, 9000000)
    ∷ (mark_update_processed 1 "worker-b", 9500000)
    ∷ []

run-IsValid_example : All IsValid (run same_text calls [])
run-IsValid_example = run-IsValid same_text calls [] tt

receive_stores : (receive same_text 1 "main" 10 "a" 1000 []).1 ≡ true
unfolding receive
receive_stores = refl
