-- ===== src/Proxy/Actor.antt =====
-- The enums of proxy/actor.h.
pub mod Names

pub data ActorType : Type 0 where
  no_name tcp_server uart_client logger_adaptor console_server manager_adaptor : ActorType

pub data NetProtocol : Type 0 where
  no_proto oscar stream telnet etflog : NetProtocol
