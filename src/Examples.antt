-- ===== src/Examples.antt =====
-- The theorems at concrete inputs, one module for each part of the program.
pub mod Packets
pub mod Connections
pub mod Etf
pub mod Files
pub mod Logging
pub mod Scheduling
pub mod Ticking
pub mod Workers
pub mod Paths
pub mod Running
