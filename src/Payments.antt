-- ===== src/Payments.antt =====
-- The payments module (src/payments): the payment rows, the service and its guarantees.
pub mod Model
pub mod Repository
pub mod Service
pub mod Progress
pub mod Rows
pub mod Captured
pub mod Rule
pub mod Progressing
pub mod Decided
pub mod Settled
pub mod Guarantees
mod Tests
pub mod Published
pub mod Flipped
pub mod Ordered
pub mod Keyed
pub mod Again
