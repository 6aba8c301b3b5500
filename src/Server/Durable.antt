-- ===== src/Server/Durable.antt =====
-- What a run of src/server_main.cpp leaves in its files.
pub mod Step
pub mod Restart
pub mod Save
pub mod Overlap
