-- ===== src/Scheduler.antt =====
-- app/services/trading_scheduler.py: the loop that runs the paper cycles.
pub mod Cycle
pub mod Guards
pub mod Failures
pub mod Tests
