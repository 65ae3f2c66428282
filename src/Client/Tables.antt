-- ===== src/Client/Tables.antt =====
-- The accounts of the instructions of the generated client, as they are built and parsed.
pub mod AdminAccounts
pub mod PoolAccounts
pub mod VaultAccounts
pub mod All
