-- ===== src/Database.antt =====
-- The database package: one database, its commands, the command table, and the standalone server.
pub mod Db
pub mod Strings
pub mod Keys
pub mod Commands
pub mod Standalone
pub mod Behaviour
pub mod Workers
pub mod Replay
pub mod Served
pub mod Safety
pub mod Invariant
