-- ===== src/Trial/Agreement.antt =====
-- The question whether a trial is available, and the statement that takes it, agree.
use vpn_mediator_public.Prelude.{ℕ, ◌≤◌, Bool, ◌==◌}
use vpn_mediator_public.Table.{count_where}
use vpn_mediator_public.Trial.{TrialClaim, TrialSubscription, TrialStore, TrialUser}

abbrev pub is_own : ℕ → TrialSubscription → Bool
is_own user_id s = s.user_id == user_id

-- The user has one subscription at most, and an id is one claim's.
pub record IsKeyed (u : TrialUser) (s : TrialStore) : Type 0 where
  pub single : count_where (is_own u.id) s.subscriptions ≤ 1
  pub keyed : (i : ℕ) → count_where (λ (c : TrialClaim). c.id == i) s.claims ≤ 1
