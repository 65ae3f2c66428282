-- ===== src/Client/Layouts.antt =====
-- How the generated client writes and reads accounts, events and the data of instructions.
pub mod Accounts
pub mod AdminEvents
pub mod OracleEvents
pub mod VaultEvents
pub mod AdminInstructions
pub mod Instructions
pub mod Tables
pub mod Agree
