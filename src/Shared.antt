-- ===== src/Shared.antt =====
-- What the modules share (src/shared): the unit of work and the resilience primitives.
pub mod UnitOfWork
pub mod Outcomes
pub mod Resilience
pub mod RateLimit
