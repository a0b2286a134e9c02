-- ===== src/Domain.antt =====
-- The domain layer, app/domain.
pub mod ValueObjects
pub mod Enums
pub mod Json
pub mod Time
pub mod Entities
