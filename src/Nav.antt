-- ===== src/Nav.antt =====
-- The net asset value of a vault: `computeNav` of app/src/lib/nav.ts and its route.
pub mod Mints
pub mod Ledger
pub mod Compute
pub mod Held
pub mod Total
mod Examples
