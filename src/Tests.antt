-- ===== src/Tests.antt =====
-- Runs at concrete inputs: one part for the storage and its file, one for the text it exchanges.
pub mod Storage
pub mod Text
pub mod Network
pub mod Server
pub mod Logging
pub mod Workers
pub mod Nodes
pub mod Clients
