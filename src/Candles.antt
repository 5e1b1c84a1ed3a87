-- ===== src/Candles.antt =====
-- The validation of candles: app/market_data/validators/candles.py.
pub mod Validate
pub mod Contiguous
pub mod Tests
