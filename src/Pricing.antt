-- ===== src/Pricing.antt =====
-- Prices: the product catalog (product_catalog.py), its text settings, and `PricingService`
-- (commerce.py).
pub mod Options
pub mod Catalog
pub mod Settings
pub mod Service
