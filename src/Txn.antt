-- ===== src/Txn.antt =====
-- server/txn: the lock manager and the transactions.
pub mod Locks
pub mod Manager
mod Tests
