-- ===== src/Bundle.antt =====
-- The bundle packages.
pub mod Jwks
pub mod Set
pub mod X509
pub mod Jwt
pub mod Wit
pub mod Spiffe
pub mod Sets
mod Tests
