-- ===== src/Cluster/Transport.antt =====
-- The transport between cluster peers (src/cluster/transport).
pub mod Checksum
pub mod Vectored
pub mod Codec
pub mod TopologyCodec
pub mod Health
