-- ===== src/LiveGate.antt =====
-- The checklist for live trading: app/execution/live_gate.py.
pub mod Evaluate
pub mod Checklist
pub mod Tests
