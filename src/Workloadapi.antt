-- ===== src/Workloadapi.antt =====
-- Package workloadapi: what the client makes of the responses, its fetches and watches.
pub mod Message
pub mod Hints
pub mod Response
pub mod Backoff
pub mod Client
pub mod Watch
pub mod BundleSource
pub mod Watcher
pub mod Sources
pub mod Addr
mod Tests
