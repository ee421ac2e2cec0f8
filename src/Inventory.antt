-- ===== src/Inventory.antt =====
-- The inventory module (src/inventory): stock rows, reservations and the use-cases over them.
pub mod Model
pub mod Statements
pub mod Repository
pub mod Totals
pub mod Claims
pub mod Claimed
pub mod Moves
pub mod Loops
pub mod Consistent
pub mod Settle
pub mod Lifecycle
pub mod Flips
pub mod Reserve
pub mod Service
pub mod Guarantees
mod Tests
