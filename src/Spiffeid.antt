-- ===== src/Spiffeid.antt =====
-- Package spiffeid: SPIFFE IDs, trust domains, paths, matchers.
pub mod Charset
pub mod Paths
pub mod Identifier
pub mod TrustDomain
pub mod Match
pub mod Uri
pub mod Require
pub mod Backcompat
mod Tests
