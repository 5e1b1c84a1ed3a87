-- ===== src/Portfolio.antt =====
-- The portfolio helper: app/portfolio/service.py.
pub mod Service
pub mod Drawdown
pub mod Tests
