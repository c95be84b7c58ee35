-- ===== src/Tests/TrialRuns.antt =====
-- A user whose first activation of a trial failed.
use vpn_mediator_public.Prelude.{◌≡◌, refl, true, none, some, [], ◌∷◌}
use vpn_mediator_public.Trial.{
  TrialClaim, TrialUser, TrialTerms, TrialStore, activation_failed, acquire_activation,
  retry_activation, get_for_user, user_has_paid_history,
}

abbrev trial_user : TrialUser
trial_user = record { id = 5; reset_at = none }

abbrev failed_claim : TrialClaim
failed_claim = record {
  id = 1;
  user_id = 5;
  status = activation_failed;
  duration_seconds = 86400;
  max_devices = 1;
  idempotency_key = "trial:5";
  subscription_id = some 3;
  failure_code = some "timeout";
  created_at = 100;
  reserved_at = some 100;
  expired_at = none;
  revoked_at = none;
}

-- The failed claim's own subscription is active, which does not stand in the way of a retry.
abbrev trial_store : TrialStore
trial_store = record {
  claims = failed_claim ∷ [];
  orders = [];
  subscriptions = record { id = 3; user_id = 5; is_active = true; expires_at = 900 } ∷ [];
}

abbrev trial_terms : TrialTerms
trial_terms = record {
  claim_id = 2;
  duration_seconds = 86400;
  max_devices = 1;
  idempotency_key = "trial:5";
}

retry_run : (acquire_activation trial_user trial_terms 200 trial_store).2 ≡ true
unfolding acquire_activation retry_activation get_for_user user_has_paid_history
retry_run = refl
