-- ===== src/Cluster.antt =====
-- Cluster support (src/cluster).
pub mod Hash
pub mod Transport
pub mod Topology
pub mod State
pub mod Failure
pub mod Routing
pub mod Tests
pub mod Replication
pub mod Server
