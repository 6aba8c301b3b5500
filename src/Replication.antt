-- ===== src/Replication.antt =====
-- Replication: include/tinykv/replication and src/replication.
pub mod Registry
pub mod LinkThread
pub mod Manager
