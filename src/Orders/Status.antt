-- ===== src/Orders/Status.antt =====
-- ORDER_STATUS_* of constants.py, and the sets of statuses that the code tests.
use vpn_mediator_public.Prelude.{Bool, true, false, List, [], ◌∷◌, ◌||◌}

pub data OrderStatus : Type 0 where
  pending payment_received activating paid activation_failed : OrderStatus
  failed refunding refunded cancelled expired : OrderStatus

abbrev pub is_pending : OrderStatus → Bool
is_pending pending = true
is_pending _ = false

abbrev pub is_paid : OrderStatus → Bool
is_paid paid = true
is_paid _ = false

abbrev pub is_activating : OrderStatus → Bool
is_activating activating = true
is_activating _ = false

-- `{ORDER_STATUS_PAYMENT_RECEIVED, ORDER_STATUS_ACTIVATION_FAILED}`
abbrev pub is_paid_unapplied : OrderStatus → Bool
is_paid_unapplied payment_received = true
is_paid_unapplied activation_failed = true
is_paid_unapplied _ = false

-- ORDER_ACTIVATION_ALLOWED_STATUSES, which is also ORDER_ACTIVATION_RETRY_STATUSES.
abbrev pub allows_activation : OrderStatus → Bool
allows_activation payment_received = true
allows_activation activating = true
allows_activation activation_failed = true
allows_activation _ = false

-- `{ORDER_STATUS_REFUNDING, ORDER_STATUS_REFUNDED}`
abbrev pub is_refund : OrderStatus → Bool
is_refund refunding = true
is_refund refunded = true
is_refund _ = false

abbrev pub is_expired_order : OrderStatus → Bool
is_expired_order expired = true
is_expired_order _ = false

abbrev pub same_status : OrderStatus → OrderStatus → Bool
same_status pending pending = true
same_status payment_received payment_received = true
same_status activating activating = true
same_status paid paid = true
same_status activation_failed activation_failed = true
same_status failed failed = true
same_status refunding refunding = true
same_status refunded refunded = true
same_status cancelled cancelled = true
same_status expired expired = true
same_status _ _ = false

-- `status.in_(statuses)`
abbrev pub status_in : OrderStatus → List OrderStatus → Bool
status_in s [] = false
status_in s (x ∷ xs) = same_status s x || status_in s xs
