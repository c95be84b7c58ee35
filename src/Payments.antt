-- ===== src/Payments.antt =====
-- Payments: the durable evidence of a provider's charge (`PaymentInboxRepository` of
-- repositories.py) and its reconciliation with the orders (`PurchaseService` of services.py).
pub mod Inbox
pub mod Evidence
pub mod Claims
pub mod Reconcile
pub mod Bound
pub mod Safety
pub mod Frame
