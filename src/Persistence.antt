-- ===== src/Persistence.antt =====
-- Durability: include/tinykv/persistence and src/persistence. What reads the files back through
-- the executor is in Recovery.antt, above the executor.
pub mod Files
pub mod Manager
pub mod Background
