-- ===== src/Vaults.antt =====
-- Vaults as the application shows them: their profiles, listings and history.
pub mod Profiles
pub mod Edit
pub mod Claims
pub mod Authorized
pub mod Listing
pub mod Shown
pub mod Trades
pub mod Logged
mod Examples
