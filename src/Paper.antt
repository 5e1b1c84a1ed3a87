-- ===== src/Paper.antt =====
-- The paper trading engine: app/execution/paper/engine.py.
pub mod State
pub mod Action
pub mod Ledger
pub mod Filling
pub mod Orders
pub mod Resting
pub mod Keeps
pub mod Sound
pub mod FillingSound
pub mod Same
pub mod OrdersSound
pub mod RestingSound
pub mod Index
pub mod Identity
pub mod Idempotent
pub mod Final
pub mod Tests
