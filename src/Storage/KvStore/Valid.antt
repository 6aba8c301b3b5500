-- ===== src/Storage/KvStore/Valid.antt =====
-- The invariant of `KVStore` (src/storage/kv_store.cpp), and its methods as those of a list of
-- entries.
mod Evict
mod Calls
pub use Evict.{IsLinked, IsValid, trim, length-entries}
pub use Calls.*
