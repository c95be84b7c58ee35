-- ===== src/Commerce/Laws.antt =====
-- The cabinet never advertises access that has ended, and never hides a paid order.
use vpn_mediator_public.Prelude.{
  ◌<◌, ◌≡◌, ◌↔◌, Bool, true, false, some, inl, inr, Option-cases, ◌≢◌, arith,
}
use vpn_mediator_public.Clock.{to_aware_utc}
use vpn_mediator_public.Lifecycle.{is_active, lifecycle_matches_authoritative_entitlement}
use vpn_mediator_public.Commerce.Cabinet
use vpn_mediator_public.Commerce.Cabinet.{
  SubscriptionView, OrderView, CabinetInput, build, primary_action, order_notice, lifecycle_state,
  automatic_refund_allowed,
}
use vpn_mediator_public.Lifecycle

-- The cabinet offers to add a device exactly when no order needs attention and there is a
-- subscription that is neither disabled nor marked expired and ends in the future.
pub add_device_offered :
    (i : CabinetInput)
    → (primary_action (build i) ≡ Cabinet.Action.add_device) ↔ (
        (order_notice i.latest_order ≡ Cabinet.NoticeState.no_notice)
        × ((s : SubscriptionView) × (i.subscription ≡ some s)
            × (Lifecycle.is_disabled s.status ≡ false)
            × (Lifecycle.is_expired s.status ≡ false)
            × (to_aware_utc i.now < to_aware_utc s.expires_at)))
unfolding build primary_action order_notice lifecycle_state
add_device_offered i = elim (Option-cases i.subscription) [
  | inl missing ↦ (λ h. absurd (ground arith), λ h. ground arith)
  | inr (s, e) ↦
      (λ h. (ground arith, (s, e, ground arith, ground arith, ground arith)), λ h. ground arith)
]

-- An automatic refund is allowed only for an order whose access was never applied, and the cabinet
-- shows such an order as one that needs attention and not as one that waits for payment. Once access
-- is applied the refund is refused for that reason, whatever the status.
pub refund_allowed :
    (order : OrderView) (has_application : Bool)
    → ((automatic_refund_allowed order.status has_application).0 ≡ true
        → (has_application ≡ false)
          × (order_notice (some order) ≢ Cabinet.NoticeState.no_notice)
          × (order_notice (some order) ≢ Cabinet.NoticeState.payment_pending))
      × (has_application ≡ true
          → automatic_refund_allowed order.status has_application
            ≡ (false, Cabinet.RefundReason.already_applied))
unfolding automatic_refund_allowed order_notice
refund_allowed order has_application =
    (λ h. (ground arith, λ e. ground arith, λ e. ground arith), λ h. ground arith)
