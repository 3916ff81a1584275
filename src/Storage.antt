-- ===== src/Storage.antt =====
-- The store (src/storage).
pub mod Capacity
pub mod Chunk
pub mod QuickList
pub mod ListValue
pub mod Ttl
pub mod Store
