-- ===== src/Svid.antt =====
-- The SVID packages.
pub mod X509Svid
pub mod Jose
pub mod JwtSvid
pub mod WitSvid
mod Tests
mod TokenTests
