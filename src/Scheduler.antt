-- ===== src/Scheduler.antt =====
-- The background loop that runs scheduled queries (backend/app/services/scheduler.py).
pub mod Delivery
pub mod Run
pub mod Tick
pub mod Conditions
pub mod Failures
pub mod Outcomes
pub mod Settled
pub mod Passes
pub mod Abandoned
mod Tests
