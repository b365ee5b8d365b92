-- ===== src/Storage.antt =====
-- server/storage: the primary-key index.
pub mod BTree
pub mod Page
pub mod Wal
pub mod Table
mod Tests
