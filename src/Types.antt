-- ===== src/Types.antt =====
-- The data that the components exchange: core/internal/types/types.go, by groups.
pub mod Enums
pub mod Access
pub mod Entities
pub mod Directory
pub mod Errors
