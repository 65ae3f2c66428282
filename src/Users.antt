-- ===== src/Users.antt =====
-- app/src/lib/users.ts, and the routes of app/src/app/api/users and app/src/app/api/points.
pub mod Ops
pub mod Account
pub mod Store
pub mod Referral
pub mod Earned
pub mod Referrer
pub mod Runs
pub mod Routes
pub mod Handlers
mod Examples
