-- ===== src/Lib.antt =====
-- A model of the server side of the fbyt web application (app/), and of its keeper.
--
-- The parts, and the code that they model:
--   Base: code units of JavaScript strings, BigInt integers, lists, tests.
--   Json: the JSON values that the datastore keeps, with lookup and the object spread.
--   Db: app/src/lib/db.ts. `Sql` is SQLite, a parameter with the laws of its five statements;
--     `db_get`, `db_put`, `db_update`, `db_append` and `db_delete` are the functions of that file.
--     `memory` is a table that meets the laws.
--   Guard: app/src/lib/guard.ts. The `Map` of buckets is a list of entries in insertion order.
--   Session: app/src/lib/session.ts. `Runtime` has the environment, the digest and the numbers.
--   Http: what the handlers under app/src/app/api share: the state of the server, responses, early
--     returns, the guard and the session.
--   Users: app/src/lib/users.ts, on the stored documents and on typed accounts.
--     Its routes are app/src/app/api/users and app/src/app/api/points/route.ts.
--   Auth: app/src/app/api/auth/nonce/route.ts and app/src/app/api/auth/verify/route.ts.
--   Bots: app/src/app/api/bots, and the bots that app/scripts/keeper.ts selects. The vault's account on
--     the chain is the parameter `Chain`.
--   Launches: app/src/app/api/launches. The `Set` of voters is a list in insertion order; `Js` has
--     String, toUpperCase and Number.
--   Money: the price accounts of app/src/app/api/dev/advance/route.ts and app/src/lib/nav.ts.
--   Client: how the generated client (app/src/generated) tells accounts, events and instructions apart, and how
--     it writes and reads them: Layouts has a list of fields for each encoder and each decoder, and Tables the
--     accounts that each instruction is built with and parsed into. `Kit` has the two functions of @solana/kit
--     that it compares bytes with, `Codecs` its codecs, and `Metas` the metas of accounts.
--   Keeper: app/scripts/keeper.ts. The amounts of a trade, the three strategies, and the runs over the stored
--     bots (`run_db_mode`) and from a file (`run_file_config`). `Market` has the chain, the clock and the
--     conversions of JavaScript; `Reach` is the relation of what a run over the bots may change.
--   Nav: `computeNav` of app/src/lib/nav.ts and its route. `Ledger` is what is read from the chain.
--   Vaults: the listing, the history, the trades and the signed profiles of vaults: app/src/lib/vaults.ts, with
--     metadataStore.ts, verifySig.ts and trades.ts beside it, and their routes under app/src/app/api/vaults and app/src/app/api/managers. `Program`
--     lists the accounts, `Logs` has the logs of transactions, and `Signing` has Ed25519 and the text codecs.
--   Uploads: app/src/app/api/uploads. `Disk` is the directory of files.
--   Rpc: app/src/lib/rpc-server.ts. `Network` is a transport of each URL, and the pauses.
--   Jupiter: app/src/lib/jupiterRoute.ts.
--   Indexer: app/scripts/indexer.ts. `Site` is what the application's routes answer.
--
-- A handler takes the server and gives the server and a response. Auth uses Http, which uses Guard
-- and Session; Users, Bots, Launches, Vaults, Uploads, Auth, the indexer and the keeper write through Db. The
-- address that Session signs is what Auth has verified, and what Users keeps accounts under. The keeper runs
-- the bots that Bots registers, and Vaults reads the snapshots that the indexer stores.
--
-- Parameters: SQLite, HMAC, the printing of numbers, the URL parser, base64, UTF-8, Ed25519, the chain and the
-- codecs of @solana/kit. The laws assumed are those of the records `Sql`, `IsStandard`, `IsStandardKit` and
-- `AreStandard`, and those of numbers are asked below 2^53 only. Times are arguments, in milliseconds. Each call runs to its end before the next one: calls that wait for each other in
-- the middle are not modelled, and statements of SQLite do not fail. The message of an exception
-- that a route answers with is not modelled.
--
-- The loops are over lists, the eight bytes of a number or the three attempts of a request, so that no
-- fuel is used. BigInt has no bound; the readers of prices have the sizes of the wire format.
--
-- Not modelled: rendering and wallet calls (app/src/components, the pages under app/src/app), the addresses
-- that the generated client derives and its fetch functions, network calls, the formatting of
-- app/src/lib/format.ts, and the programs in Rust.
pub mod Base
pub mod Json
pub mod Db
pub mod Guard
pub mod Session
pub mod Http
pub mod Users
pub mod Auth
pub mod Money
pub mod Keeper
pub mod Bots
pub mod Launches
pub mod Client
pub mod Nav
pub mod Vaults
pub mod Uploads
pub mod Rpc
pub mod Jupiter
pub mod Indexer
