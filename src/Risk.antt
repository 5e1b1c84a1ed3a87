-- ===== src/Risk.antt =====
-- The risk engine: app/risk/engine.py.
pub mod Check
pub mod State
pub mod Gates
pub mod Limits
pub mod Engine
pub mod Refusals
pub mod Facts
pub mod Fitting
pub mod Cleared
pub mod Sizing
pub mod Within
pub mod Accepted
pub mod Safety
pub mod Rate
pub mod Tests
