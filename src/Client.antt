-- ===== src/Client.antt =====
-- The client of the on-chain program: which account, event or instruction some bytes are.
pub mod Kit
pub mod VaultPool
pub mod Accounts
pub mod Events
pub mod Instructions
pub mod KnownAccounts
pub mod KnownEvents
pub mod KnownInstructions
pub mod Known
pub mod Codec
pub mod Layouts
pub mod Encoded
pub mod Written
pub mod Account
pub mod Tables
pub mod Built
pub mod Examples
