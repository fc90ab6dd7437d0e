-- ===== src/Router.antt =====
-- crates/guinea-router/src/router.rs: which segments of a chain a navigation keeps, the cache of
-- their states, the history, and how a chain is taken down and built.
pub mod Cache
pub mod Chain
pub mod History
pub mod Host
pub mod Leaving
pub mod Install
pub mod Standing
pub mod Outcome
pub mod Installing
pub mod Navigate
pub mod Settling
pub mod Stale
pub mod Handle
mod Tests
