-- ===== src/Cluster.antt =====
-- cluster/: the database of a node that shares its keys with other nodes.
pub mod Relay
pub mod Pool
pub mod Router
pub mod Broadcast
pub mod Wire
pub mod Agreement
pub mod Routing
pub mod Owners
pub mod Renames
