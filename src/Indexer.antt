-- ===== src/Indexer.antt =====
-- app/scripts/indexer.ts: the snapshots and trades that are kept.
pub mod Tick
pub mod Stored
pub mod Again
mod Examples
