-- ===== src/Store.antt =====
-- meshcore_rpc_services/persistence/sqlite.py and schema.sql: the tables, and the statements that
-- `Store` runs on them. A table is the list of its rows, the newest last; `now` is `time.time()`.
-- A JSON column holds the value that was dumped. Failures of SQLite are in Runtime.antt.
pub mod Migrations
pub mod Rows
pub mod Requests
pub mod Nodes
pub mod Retention
pub mod Invariant
pub mod Counting
pub mod Purging
pub mod Seen
pub mod Interleaving
