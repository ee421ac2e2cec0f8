-- ===== src/Shared/Resilience.antt =====
-- The primitives that guard remote calls (src/shared/resilience.py): the circuit breaker, the
-- fleet-wide budget of calls in flight, and the bounded retry.
pub mod Breaker
pub mod Probes
pub mod Budget
pub mod Retry
mod Tests
