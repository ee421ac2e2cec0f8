-- ===== src/Orders/Saga.antt =====
-- The checkout saga (src/orders/application/checkout_saga.py).
pub mod Ports
pub mod Undo
pub mod Basket
pub mod Settling
pub mod Drive
pub mod Checkout
pub mod Recovery
pub mod Recovering
pub mod Passing
pub mod Accounted
mod Tests
pub mod Preserves
pub mod Steady
pub mod Calm
pub mod AfterCharge
pub mod BeforeCharge
pub mod Unwinding
pub mod Confirms
pub mod Refused
pub mod Marked
pub mod Unanswered
pub mod Confirmed
pub mod Answered
