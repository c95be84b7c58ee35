-- ===== src/Tests.antt =====
-- Runs of the definitions, and the properties at concrete inputs.
mod PaymentRuns
mod UpdateRuns
mod DeliveryRuns
mod DiscountRuns
mod PricingRuns
mod AccessRuns
mod LeaseRuns
mod OutboxRuns
mod SerializationRuns
mod OperationRuns
mod CoordinatorRuns
mod RefundRuns
mod SecretRuns
mod SegmentRuns
mod TokenRuns
mod TrialRuns
