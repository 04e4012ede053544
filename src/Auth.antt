-- ===== src/Auth.antt =====
-- internal/auth: the caller's identity.
pub mod Principal
pub mod Jwks
pub mod Jwk
pub mod Callers
pub mod Claims
pub mod Verify
pub mod Trust
pub mod Providers
