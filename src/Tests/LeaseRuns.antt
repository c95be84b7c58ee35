-- ===== src/Tests/LeaseRuns.antt =====
-- One user's access, held by one worker while another tries.
use vpn_mediator_public.Prelude.{
  ℕ, ◌<◌, ◌≡◌, refl, String, false, some, List, [], ◌∷◌, arith, eq_iff,
}
use vpn_mediator_public.Clock.{Instant}
use vpn_mediator_public.Table.{find}
use vpn_mediator_public.Leases.{Lease, of_user, lease_of, acquire}
use vpn_mediator_public.Leases.Exclusive.{Call, acquire_call, release_call, calls, lease_exclusive}

abbrev held : Lease
held = lease_of 7 "order" "worker-a" 120 1000

abbrev attempts : List (Call × Instant)
attempts = (acquire_call 7 "refund" "worker-b" 60, 2000) ∷ (release_call 7 "worker-b", 3000) ∷ []

lease_exclusive_example :
    (find (of_user 7) (calls attempts (held ∷ [])) ≡ some held)
    × ((kind owner : String) (lease_seconds : ℕ) (now : Instant)
        → now < held.lease_expires_at
        → acquire 7 kind owner lease_seconds now (calls attempts (held ∷ []))
          ≡ (calls attempts (held ∷ []), false))
lease_exclusive_example = lease_exclusive attempts 7 (held ∷ []) held refl (
  (λ e. ground (arith, eq_iff "worker-b" "worker-a"), omega arith),
  ((λ e. ground (arith, eq_iff "worker-b" "worker-a"), omega arith), tt),
)
