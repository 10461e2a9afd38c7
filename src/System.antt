-- ===== src/System.antt =====
-- The parts of the program together.
pub mod EtfPath
pub mod Files
pub mod LogPath
pub mod Records
