-- ===== src/Storage.antt =====
-- internal/storage: the indexes and engines that hold the atoms.
pub mod Wal
pub mod Crystal
pub mod Merkle
pub mod FrontierCache
pub mod Store
