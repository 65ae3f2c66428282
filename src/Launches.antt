-- ===== src/Launches.antt =====
-- Upcoming launches and the votes on them.
pub mod Voters
pub mod Routes
pub mod Vote
pub mod Order
mod Examples
