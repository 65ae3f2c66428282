-- ===== src/Keeper.antt =====
-- app/scripts/keeper.ts: the strategies of the trading bots.
pub mod Trade
pub mod Fair
pub mod Strategy
pub mod Rebalance
pub mod Grid
pub mod Market
pub mod Execute
pub mod Run
pub mod File
pub mod Changes
pub mod Swaps
pub mod Reach
pub mod Kept
mod Examples
