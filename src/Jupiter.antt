-- ===== src/Jupiter.antt =====
-- app/src/lib/jupiterRoute.ts: a route of Jupiter as the swap needs it.
pub mod Route
pub mod Signers
mod Examples
