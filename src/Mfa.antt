-- ===== src/Mfa.antt =====
-- The factors of multi-factor authentication: core/internal/mfa.
pub mod Totp
pub mod Push
pub mod WebAuthn
