-- ===== src/Sharding.antt =====
-- Sharding: include/tinykv/sharding and src/sharding.
pub mod Ring
pub mod Topology
pub mod Health
pub mod Router
