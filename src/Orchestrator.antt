-- ===== src/Orchestrator.antt =====
-- app/services/trading_orchestrator.py: a session of paper trading, candle by candle.
pub mod State
pub mod Step
pub mod Portfolio
pub mod Acting
pub mod Process
pub mod Keeps
pub mod Marks
pub mod Accepting
pub mod Replay
pub mod Windows
pub mod Sound
pub mod Tests
