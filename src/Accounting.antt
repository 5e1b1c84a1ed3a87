-- ===== src/Accounting.antt =====
-- The accounting invariants of the paper ledger: app/accounting/invariants.py.
pub mod Invariants
pub mod Consistent
pub mod Sound
pub mod Tests
