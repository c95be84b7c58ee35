-- ===== src/Refunds.antt =====
-- Refunds of repositories.py: `RefundOperationRepository`, `RefundPlanRepository` and the part of
-- `ReferralRewardRepository` that a refund uses, for the rows of one order.
pub mod Preview
pub mod Confirm
pub mod Complete
pub mod Calls
pub mod Single
pub mod Expired
use vpn_mediator_public.Prelude.{
  ℕ, ◌+◌, ◌≡◌, String, Bool, true, false, Option, none, some, List, if◌then◌else◌, str_eq,
}
use vpn_mediator_public.Clock.{Instant}
use vpn_mediator_public.Orders.Repository.{Order}
use vpn_mediator_public.Leases.{Lease}
use vpn_mediator_public.Outbox.{Item}

-- The states of a refund operation that the code sets.
pub data RefundStage : Type 0 where
  prepared provider_unknown provider_refunded compensation_pending : RefundStage
  completed manual_review : RefundStage

-- The columns of `RefundOperation` that its operations change.
pub record RefundOperation : Type 0 where
  pub subscription_id : Option ℕ
  pub state : RefundStage
  pub provider_requested_at : Option Instant
  pub provider_refunded_at : Option Instant
  pub compensation_operation_id : Option ℕ
  pub attempt_count : ℕ
  pub last_error_code : Option String
  pub completed_at : Option Instant
  pub updated_at : Instant

pub data PlanState : Type 0 where
  plan_prepared plan_confirmed plan_provider_refunded plan_compensation_pending : PlanState
  plan_completed plan_manual_review plan_expired : PlanState

-- What a refund makes of the entitlement.
pub record RefundTarget : Type 0 where
  pub subscription_id : Option ℕ
  pub expected_version : Option ℕ
  pub previous_status : Option String
  pub previous_valid_until : Option Instant
  pub previous_max_devices : Option ℕ
  pub target_status : String
  pub target_valid_until : Option Instant
  pub target_max_devices : Option ℕ

pub record RefundPlan : Type 0 where
  pub target : RefundTarget
  pub state : PlanState
  pub confirmation_token_hash : Option String
  pub confirmation_expires_at : Option Instant
  pub confirmed_at : Option Instant
  pub created_by_admin : Option ℕ
  pub failure_code : Option String
  pub updated_at : Instant

-- `ReferralReward.status`
pub data RewardStatus : Type 0 where
  pending_hold available failed cancelled applying applied : RewardStatus
  reversal_required reversal_failed reversed : RewardStatus

-- `create_once`, for an order that has no operation.
abbrev pub new_operation : Option ℕ → Instant → RefundOperation
new_operation subscription_id now = record {
  subscription_id = subscription_id;
  state = prepared;
  provider_requested_at = none;
  provider_refunded_at = none;
  compensation_operation_id = none;
  attempt_count = 0;
  last_error_code = none;
  completed_at = none;
  updated_at = now;
}

abbrev pub create_once : Option ℕ → Instant → Option RefundOperation → RefundOperation
create_once subscription_id now none = new_operation subscription_id now
create_once subscription_id now (some existing) = existing

abbrev pub mark_provider_requested : Instant → RefundOperation → RefundOperation
mark_provider_requested now o = record o {
  state = provider_unknown;
  provider_requested_at = some now;
  attempt_count = o.attempt_count + 1;
  updated_at = now;
}

abbrev pub mark_provider_refunded : Instant → RefundOperation → RefundOperation
mark_provider_refunded now o = record o {
  state = provider_refunded;
  provider_refunded_at = some now;
  last_error_code = none;
  updated_at = now;
}

abbrev pub mark_compensation_pending : ℕ → Instant → RefundOperation → RefundOperation
mark_compensation_pending entitlement_operation_id now o = record o {
  state = compensation_pending;
  compensation_operation_id = some entitlement_operation_id;
  updated_at = now;
}

abbrev pub mark_completed : Instant → RefundOperation → RefundOperation
mark_completed now o = record o {
  state = completed;
  completed_at = some now;
  last_error_code = none;
  updated_at = now;
}

-- An error code is what `[:64]` leaves of it, here and below.
abbrev pub mark_manual_review : String → Instant → RefundOperation → RefundOperation
mark_manual_review error_code now o = record o {
  state = manual_review;
  last_error_code = some error_code;
  updated_at = now;
}

-- What a preview writes to a plan.
pub record PlanValues : Type 0 where
  pub target : RefundTarget
  pub token_hash : String
  pub expires_at : Instant
  pub admin : Option ℕ

abbrev pub plan_of : PlanValues → Option Instant → Instant → RefundPlan
plan_of v confirmed_at now = record {
  target = v.target;
  state = plan_prepared;
  confirmation_token_hash = some v.token_hash;
  confirmation_expires_at = some v.expires_at;
  confirmed_at = confirmed_at;
  created_by_admin = v.admin;
  failure_code = none;
  updated_at = now;
}

-- `plan.state in {"prepared", "manual_review"}`
abbrev pub is_open : PlanState → Bool
is_open plan_prepared = true
is_open plan_manual_review = true
is_open _ = false

unfoldable pub create_or_refresh : PlanValues → Instant → Option RefundPlan → RefundPlan
create_or_refresh v now none = plan_of v none now
create_or_refresh v now (some p) = if is_open p.state then plan_of v p.confirmed_at now else p

abbrev pub mark_confirmed : Instant → RefundPlan → RefundPlan
mark_confirmed now p = record p {
  state = plan_confirmed;
  confirmed_at = some now;
  confirmation_token_hash = none;
  updated_at = now;
}

abbrev pub mark_state : PlanState → Option String → Instant → RefundPlan → RefundPlan
mark_state state error_code now p = record p {
  state = state;
  failure_code = error_code;
  updated_at = now;
}

-- `cancel_unapplied_for_source_order`, on the status of the order's reward.
abbrev pub cancel_unapplied : RewardStatus → RewardStatus
cancel_unapplied pending_hold = cancelled
cancel_unapplied available = cancelled
cancel_unapplied failed = cancelled
cancel_unapplied applying = reversal_required
cancel_unapplied applied = reversal_required
cancel_unapplied s = s

-- What the order was for, and the keys that the code makes from its public id.
pub record Terms : Type 0 where
  pub is_purchase : Bool
  pub base_valid_until : Option Instant
  pub base_max_devices : Option ℕ
  pub owner_key : String
  pub started_key : String
  pub completed_key : String
  pub unknown_key : String

-- The rows of one order's refund, with the tables of leases and of notifications.
pub record Refund : Type 0 where
  pub order : Order
  pub terms : Terms
  pub operation : Option RefundOperation
  pub plan : Option RefundPlan
  pub reward : Option RewardStatus
  pub leases : List Lease
  pub notices : List Item
