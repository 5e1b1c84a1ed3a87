-- ===== src/Backtest.antt =====
-- app/backtesting/engine.py: a strategy run over historical candles.
pub mod Engine
pub mod Causal
pub mod Trades
pub mod Metrics
pub mod Streaks
pub mod Tests
