-- ===== src/Bundle/Sets.antt =====
-- The sets of the four bundle packages.
pub mod X509Set
pub mod JwtSet
pub mod WitSet
pub mod SpiffeSet
pub mod Sources
