-- ===== src/Trial.antt =====
-- The free trial: `TrialClaimRepository` of repositories.py, `TrialEligibilityService` of trial.py and
-- `user_has_paid_history` of product_completion.py.
pub mod Agreement
use vpn_mediator_public.Prelude.{
  ℕ, ◌≡◌, String, Bool, true, false, ◌&&◌, ◌||◌, not, Option, none, some, List, [], ◌∷◌, ◌++◌, ltb,
  ◌==◌, if◌then◌else◌, Result, ok, err,
}
use vpn_mediator_public.Clock.{Instant}
use vpn_mediator_public.Table.{find, update_where, count_where}

-- TRIAL_STATUS_*
pub data TrialStatus : Type 0 where
  activating activation_failed active converted expired revoked : TrialStatus

-- The columns of `TrialClaim` that these operations use.
pub record TrialClaim : Type 0 where
  pub id : ℕ
  pub user_id : ℕ
  pub status : TrialStatus
  pub duration_seconds : ℕ
  pub max_devices : ℕ
  pub idempotency_key : String
  pub subscription_id : Option ℕ
  pub failure_code : Option String
  pub created_at : Instant
  pub reserved_at : Option Instant
  pub expired_at : Option Instant
  pub revoked_at : Option Instant

-- What the question for a paid history reads of an order.
pub record HistoryOrder : Type 0 where
  pub user_id : ℕ
  pub is_test_order : Bool
  pub amount_minor_units : ℕ
  pub paid_at : Option Instant
  pub has_charge : Bool
  pub is_paid : Bool
  pub created_at : Instant

pub record TrialSubscription : Type 0 where
  pub id : ℕ
  pub user_id : ℕ
  pub is_active : Bool
  pub expires_at : Instant

pub record TrialStore : Type 0 where
  pub claims : List TrialClaim
  pub orders : List HistoryOrder
  pub subscriptions : List TrialSubscription

-- The user who asks: `test_user_reset_at_utc` cuts off older orders.
pub record TrialUser : Type 0 where
  pub id : ℕ
  pub reset_at : Option Instant

abbrev pub is_some {ℓ} : {A : Type ℓ} → Option A → Bool
is_some none = false
is_some (some a) = true

abbrev pub is_past_cutoff : Option Instant → HistoryOrder → Bool
is_past_cutoff none o = true
is_past_cutoff (some cutoff) o = elim o.paid_at [
  | none ↦ ltb cutoff o.created_at
  | some t ↦ ltb cutoff t
]

-- The WHERE of `user_has_paid_history`, which `acquire_activation` repeats.
abbrev pub is_paid_history : TrialUser → HistoryOrder → Bool
is_paid_history u o =
    (o.user_id == u.id)
    && not o.is_test_order
    && ltb 0 o.amount_minor_units
    && (is_some o.paid_at || o.has_charge || o.is_paid)
    && is_past_cutoff u.reset_at o

unfoldable pub user_has_paid_history : TrialUser → List HistoryOrder → Bool
user_has_paid_history u t = ltb 0 (count_where (is_paid_history u) t)

abbrev pub is_claim_of : ℕ → TrialClaim → Bool
is_claim_of user_id c = c.user_id == user_id

unfoldable pub get_for_user : ℕ → List TrialClaim → Option TrialClaim
get_for_user user_id t = find (is_claim_of user_id) t

abbrev pub is_failed : TrialStatus → Bool
is_failed activation_failed = true
is_failed _ = false

abbrev pub is_activating : TrialStatus → Bool
is_activating activating = true
is_activating _ = false

-- An unexpired active subscription of the user, and one that the claim is not for.
abbrev pub is_live : ℕ → Instant → TrialSubscription → Bool
is_live user_id now s = (s.user_id == user_id) && s.is_active && ltb now s.expires_at

abbrev pub is_for : Option ℕ → ℕ → Bool
is_for none i = false
is_for (some j) i = j == i

abbrev pub is_rival : ℕ → Option ℕ → Instant → TrialSubscription → Bool
is_rival user_id claimed now s = is_live user_id now s && not (is_for claimed s.id)

-- The arguments of `acquire_activation`; the key is the text that it makes from the user's id and
-- reset generation.
pub record TrialTerms : Type 0 where
  pub claim_id : ℕ
  pub duration_seconds : ℕ
  pub max_devices : ℕ
  pub idempotency_key : String

abbrev pub new_claim : TrialUser → TrialTerms → Instant → TrialClaim
new_claim u terms now = record {
  id = terms.claim_id;
  user_id = u.id;
  status = activating;
  duration_seconds = terms.duration_seconds;
  max_devices = terms.max_devices;
  idempotency_key = terms.idempotency_key;
  subscription_id = none;
  failure_code = none;
  created_at = now;
  reserved_at = some now;
  expired_at = none;
  revoked_at = none;
}

abbrev pub retry_claim : TrialClaim → TrialClaim
retry_claim c = record c { status = activating; failure_code = none }

abbrev pub is_retriable : ℕ → TrialClaim → Bool
is_retriable i c = (c.id == i) && is_failed c.status

-- The conditional UPDATE of a failed claim.
unfoldable pub retry_activation :
    TrialUser → TrialClaim → Instant → TrialStore → TrialStore × Option TrialClaim × Bool
unfolding user_has_paid_history
retry_activation u c now s =
    if user_has_paid_history u s.orders
      || ltb 0 (count_where (is_rival u.id c.subscription_id now) s.subscriptions)
      || not (count_where (is_retriable c.id) s.claims == 1)
    then (s, some c, false)
    else (
      record s { claims = update_where (is_retriable c.id) retry_claim s.claims },
      some (retry_claim c),
      true,
    )

-- `acquire_activation`: the store, the claim, and whether this call acquired it.
unfoldable pub acquire_activation :
    TrialUser → TrialTerms → Instant → TrialStore → TrialStore × Option TrialClaim × Bool
unfolding get_for_user user_has_paid_history retry_activation
acquire_activation u terms now s = elim (get_for_user u.id s.claims) [
  | none ↦
      if user_has_paid_history u s.orders || ltb 0 (count_where (is_live u.id now) s.subscriptions)
      then (s, none, false)
      else (
        record s { claims = s.claims ++ new_claim u terms now ∷ [] },
        some (new_claim u terms now),
        true,
      )
  | some c ↦ if is_failed c.status then retry_activation u c now s else (s, some c, false)
]

-- `TrialEligibilityReason`
pub data TrialReason : Type 0 where
  available retry_failed_activation feature_disabled paid_history_exists : TrialReason
  active_subscription_exists activation_in_progress already_used service_unavailable : TrialReason

-- `TrialEligibility`
pub record TrialEligibility : Type 0 where
  pub is_available : Bool
  pub can_retry_failed_activation : Bool
  pub reason : TrialReason
  pub existing_claim_id : Option ℕ
  pub existing_subscription_id : Option ℕ

abbrev pub refusal_of : TrialReason → TrialEligibility
refusal_of reason = record {
  is_available = false;
  can_retry_failed_activation = false;
  reason = reason;
  existing_claim_id = none;
  existing_subscription_id = none;
}

-- `_from_existing_claim`
unfoldable pub from_existing_claim : TrialClaim → TrialEligibility
from_existing_claim c = record {
  is_available = is_failed c.status;
  can_retry_failed_activation = is_failed c.status;
  reason =
      if is_failed c.status
      then retry_failed_activation
      else if is_activating c.status
      then activation_in_progress
      else already_used;
  existing_claim_id = some c.id;
  existing_subscription_id = c.subscription_id;
}

-- Whether the subscription that `evaluate` is given is active and not the claim's own.
abbrev pub blocks : Option ℕ → Instant → Option TrialSubscription → Bool
blocks claimed now none = false
blocks claimed now (some s) = s.is_active && ltb now s.expires_at && not (is_for claimed s.id)

abbrev pub claimed_subscription : Option TrialClaim → Option ℕ
claimed_subscription none = none
claimed_subscription (some c) = c.subscription_id

abbrev pub subscription_refusal : Option TrialSubscription → TrialEligibility
subscription_refusal none = refusal_of active_subscription_exists
subscription_refusal (some s) = record (refusal_of active_subscription_exists) {
  existing_subscription_id = some s.id;
}

-- The order of the questions, once the claim is known.
unfoldable pub evaluate_claim :
    Bool → Option TrialClaim → Instant → Option TrialSubscription → TrialEligibility
unfolding from_existing_claim
evaluate_claim has_history none now subscription =
    if has_history
    then refusal_of paid_history_exists
    else if blocks none now subscription
    then subscription_refusal subscription
    else record (refusal_of available) { is_available = true }
evaluate_claim has_history (some c) now subscription =
    if not (is_failed c.status)
    then from_existing_claim c
    else if has_history
    then refusal_of paid_history_exists
    else if blocks c.subscription_id now subscription
    then subscription_refusal subscription
    else from_existing_claim c

-- `evaluate`
unfoldable pub evaluate :
    Bool → TrialUser → Option TrialSubscription → Instant → TrialStore → TrialEligibility
unfolding get_for_user user_has_paid_history evaluate_claim
evaluate trial_enabled u subscription now s =
    if trial_enabled
    then evaluate_claim (user_has_paid_history u s.orders) (get_for_user u.id s.claims) now
        subscription
    else refusal_of feature_disabled

abbrev pub is_pending_trial : ℕ → TrialClaim → Bool
is_pending_trial subscription_id c =
    is_for c.subscription_id subscription_id && open_status c.status
  where
    open_status : TrialStatus → Bool
    open_status activating = true
    open_status activation_failed = true
    open_status active = true
    open_status _ = false

abbrev pub end_claim : Bool → TrialStatus → Instant → TrialClaim → TrialClaim
end_claim true status now c = record c { status = status; expired_at = some now }
end_claim false status now c = record c { status = status; revoked_at = some now }

-- `trial_terminal_status_invalid` for a status that ends nothing.
unfoldable pub mark_terminal_for_subscription :
    ℕ → TrialStatus → Instant → List TrialClaim → Result String (List TrialClaim × Bool)
mark_terminal_for_subscription subscription_id status now t =
    if is_expiry status || is_revocation status
    then ok (
      update_where (is_pending_trial subscription_id) (end_claim (is_expiry status) status now) t,
      ltb 0 (count_where (is_pending_trial subscription_id) t),
    )
    else err "trial_terminal_status_invalid"
  where
    is_expiry : TrialStatus → Bool
    is_expiry expired = true
    is_expiry _ = false

    is_revocation : TrialStatus → Bool
    is_revocation revoked = true
    is_revocation _ = false
