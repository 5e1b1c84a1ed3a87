-- ===== src/Domain.antt =====
-- The domain model: app/models/domain.
pub mod Enums
pub mod Trading
pub mod Market
