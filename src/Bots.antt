-- ===== src/Bots.antt =====
-- Bots that the keeper trades with: their routes, and which of them run.
pub mod Routes
pub mod Owner
pub mod Removed
pub mod Register
pub mod Manager
pub mod Examples
