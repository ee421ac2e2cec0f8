-- ===== src/Bootstrap.antt =====
-- How src/bootstrap puts the modules together.
pub mod Transactions
pub mod Marked
pub mod Covered
pub mod Runs
mod Tests
