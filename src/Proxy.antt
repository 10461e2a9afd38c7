-- ===== src/Proxy.antt =====
-- The library proxy/ of the repository.
pub mod Actor
pub mod OscarAdaptor
pub mod TcpChild
pub mod LogChannel
pub mod Manager
pub mod TcpServer
pub mod Signals
pub mod Console
pub mod Configurator
pub mod ThreadPool
pub mod Terminal
pub mod StreamLogger
pub mod Sink
pub mod Logger
