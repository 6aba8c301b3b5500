-- ===== src/Startup.antt =====
-- The beginnings of the three programs: their arguments and configuration files.
pub mod ServerMain
pub mod RouterMain
pub mod CliMain
