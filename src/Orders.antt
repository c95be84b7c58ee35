-- ===== src/Orders.antt =====
-- Orders: their statuses (constants.py) and the status changes of `OrderRepository`
-- (repositories.py).
pub mod Status
pub mod Repository
pub mod Claims
