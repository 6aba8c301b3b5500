-- ===== src/Concurrency.antt =====
-- Threads: include/tinykv/concurrency and src/concurrency, and their use by src/persistence.
pub mod ThreadPool
