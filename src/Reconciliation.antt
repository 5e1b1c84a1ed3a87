-- ===== src/Reconciliation.antt =====
-- app/services/reconciliation.py: the check of the paper ledger that halts trading.
pub mod Run
pub mod Replay
pub mod Healthy
pub mod Halt
pub mod Tests
