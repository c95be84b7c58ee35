-- ===== src/Lifecycle/Laws.antt =====
-- What the reconciliation of a subscription with its entitlement guarantees.
use vpn_mediator_public.Prelude.{
  ◌≡◌, ◌↔◌, ◌⊎◌, true, false, some, none, arith, if◌then◌else◌, ok, err,
}
use vpn_mediator_public.Clock.{DateTime, to_aware_utc}
use vpn_mediator_public.Lifecycle.{
  Status, expired, disabled, RepairMode, adopt_expired, adopt_disabled, restore_local,
  LifecycleProjection, ReasonCode, LifecycleError, is_disabled, restored_legacy_expiration,
  active_entitlement_already_expired, legacy_expiration, project_reconciled_lifecycle,
  lifecycle_matches_authoritative_entitlement, Observation, is_expiration_transition_pending,
  is_legacy_expiration_drift,
}

abbrev pub kept : ReasonCode → LifecycleProjection
kept reason = record { subscription_status = expired; disabled_at_utc = none; reason_code = reason }

-- Whatever the reconciliation projects is a status that the authoritative entitlement accepts at
-- the same moment, in every repair mode.
pub project-matches :
    (current entitlement : Status) (valid_until : DateTime) (mode : RepairMode) (now : DateTime)
    (p : LifecycleProjection)
    → project_reconciled_lifecycle current entitlement valid_until mode now ≡ ok p
    → lifecycle_matches_authoritative_entitlement p.subscription_status entitlement valid_until now
      ≡ true
unfolding project_reconciled_lifecycle lifecycle_matches_authoritative_entitlement
project-matches current entitlement valid_until mode now p h = ground arith

-- If the projection of an entitlement that is not disabled is refused, then no subscription status
-- at all would match that entitlement.
pub project_refusal :
    (current entitlement : Status) (valid_until : DateTime) (mode : RepairMode) (now : DateTime)
    (e : LifecycleError)
    → project_reconciled_lifecycle current entitlement valid_until mode now ≡ err e
    → is_disabled entitlement ≡ false
    → (s : Status)
    → lifecycle_matches_authoritative_entitlement s entitlement valid_until now ≡ false
unfolding project_reconciled_lifecycle lifecycle_matches_authoritative_entitlement
project_refusal current entitlement valid_until mode now e h nd s = ground arith

-- A projection disables a subscription exactly when the entitlement is disabled and the operator
-- adopts that, or restores a subscription that is disabled already; the moment of disabling is
-- recorded then, and only then.
pub project_disables :
    (current entitlement : Status) (valid_until : DateTime) (mode : RepairMode) (now : DateTime)
    (p : LifecycleProjection)
    → project_reconciled_lifecycle current entitlement valid_until mode now ≡ ok p
    → ((p.subscription_status ≡ disabled) ↔ (
        (entitlement ≡ disabled)
        × ((mode ≡ adopt_disabled) ⊎ ((mode ≡ restore_local) × (current ≡ disabled)))))
      × (p.disabled_at_utc
          ≡ (if is_disabled p.subscription_status then some (to_aware_utc now) else none))
unfolding project_reconciled_lifecycle
project_disables current entitlement valid_until mode now p h =
    ((λ q. ground arith, λ q. ground arith), ground arith)

-- A pending expiration is a mismatch with the mediator that no repair mode may paper over: the
-- projection refuses it as an active entitlement that has expired. It is never taken for the drift
-- of a legacy expiration.
pub pending_is_mismatch :
    (o : Observation) (mode : RepairMode)
    → is_expiration_transition_pending o ≡ true
    → (lifecycle_matches_authoritative_entitlement o.subscription_status o.remote_status
          o.remote_valid_until o.now
        ≡ false)
      × (project_reconciled_lifecycle o.subscription_status o.remote_status o.remote_valid_until
            mode o.now
          ≡ err active_entitlement_already_expired)
      × (is_legacy_expiration_drift o ≡ false)
unfolding is_expiration_transition_pending is_legacy_expiration_drift project_reconciled_lifecycle
    lifecycle_matches_authoritative_entitlement
pending_is_mismatch o mode h = (ground arith, ground arith, ground arith)

-- The drift of a legacy expiration is repaired by adopting the expiration or by restoring the
-- local state: both keep the subscription expired and record no disabling.
pub drift_is_repairable :
    (o : Observation)
    → is_legacy_expiration_drift o ≡ true
    → (project_reconciled_lifecycle o.subscription_status o.remote_status o.remote_valid_until
          adopt_expired o.now
        ≡ ok (kept legacy_expiration))
      × (project_reconciled_lifecycle o.subscription_status o.remote_status o.remote_valid_until
            restore_local o.now
          ≡ ok (kept restored_legacy_expiration))
unfolding is_legacy_expiration_drift project_reconciled_lifecycle
drift_is_repairable o h = (ground arith, ground arith)
