-- ===== src/Rpc.antt =====
-- app/src/lib/rpc-server.ts: reads that are tried again.
pub mod Transport
pub mod Live
mod Examples
