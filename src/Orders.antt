-- ===== src/Orders.antt =====
-- The orders module (src/orders): the order rows and the saga's journal, the service, and the
-- checkout saga over its ports.
pub mod Model
pub mod Repository
pub mod Service
pub mod Cancelled
pub mod Decided
pub mod Saga
mod Tests
