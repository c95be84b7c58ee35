-- ===== src/Commerce.antt =====
-- commerce.py, apart from the prices: what a customer sees and may do, the refund policy, and the
-- plain renewal.
pub mod Cabinet
pub mod Laws
