-- ===== src/Db.antt =====
-- app/src/lib/db.ts: documents in the SQLite table docs(collection, id, data).
-- SQLite itself is a parameter, the record `Sql` of Db/Sql.antt.
pub mod Sql
pub mod Ops
pub mod Laws
pub mod Keyed
pub mod Memory
mod Examples
