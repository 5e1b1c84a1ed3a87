-- ===== src/Strategies.antt =====
-- The strategies of app/strategies.
pub mod Base
pub mod Cross
pub mod EmaCrossover
pub mod EmaRsi
pub mod EmaTrend
pub mod RsiMeanReversion
pub mod Breakout
pub mod Registry
pub mod Fits
pub mod LongOnly
pub mod EmaLongOnly
pub mod Registered
pub mod Tests
