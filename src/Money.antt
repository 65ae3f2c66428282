-- ===== src/Money.antt =====
-- Bytes and prices that the NAV computation, the keeper and the development routes share.
pub mod Wire
pub mod Account
pub mod Scale
mod Examples
