-- ===== src/Network.antt =====
-- server/network: the pool of worker threads.
pub mod Pool
mod Tests
