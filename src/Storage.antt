-- ===== src/Storage.antt =====
-- The storage layer: include/tinykv/storage and src/storage.
pub mod KvStore
pub mod ExpiryManager
