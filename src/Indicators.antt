-- ===== src/Indicators.antt =====
-- The indicators of app/indicators: moving averages, momentum, volatility.
pub mod Series
pub mod Averages
pub mod Momentum
pub mod Volatility
pub mod Agrees
pub mod Causal
pub mod Tests
