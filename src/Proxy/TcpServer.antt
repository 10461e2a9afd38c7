-- ===== src/Proxy/TcpServer.antt =====
-- proxy/tcpserver.h: the server of TCP connections. Ids are of `size_t`, 64 bits wide.
pub mod Clients
use proxy_channels.Base.{
  ℕ, ◌+◌, ◌%◌, ◌^◌, List, [], ◌∷◌, ◌++◌, Bytes, Bool, true, false, ◌==◌, if◌then◌else◌,
}
use proxy_channels.Proxy.TcpChild.{Child, Action, send_message}

pub record Server : Type 0 where
  pub clients : List Child
  -- the static counter of GenerateId
  pub counter : ℕ
  pub listens : Bool
  -- the slots of the two signals
  pub connected : Bool

unfoldable pub generate_id : Server → ℕ × Server
generate_id s = (s.counter, record s { counter = (s.counter + 1) % 2 ^ 64 })

-- A new connection, whose SendMessage is connected to m_sigOutputMessage.
unfoldable pub new_client : ℕ → Child
new_client id = record {
  id = id;
  msg_queue = [];
  out_buffer = [];
  idle_write = true;
  connected = true;
}

-- The next accept is started in both cases.
unfoldable pub accept_handler : Bool → Server → Server
unfolding generate_id new_client
accept_handler true s = s
accept_handler false s =
    let r = generate_id s in record r.1 { clients = s.clients ++ new_client r.0 ∷ [] }

-- find_if, and the erase of what it found
unfoldable pub erase_first : ℕ → List Child → List Child
erase_first id [] = []
erase_first id (c ∷ cs) = let rest = erase_first id cs in if c.id == id then cs else c ∷ rest

unfoldable pub erase_client : ℕ → Server → Server
unfolding erase_first
erase_client id s = record s { clients = erase_first id s.clients }

unfoldable pub stop : Server → Server
stop s = record s { clients = []; listens = false; connected = false }

unfoldable pub start : Server → Server
start s = record s { listens = true }

-- m_sigOutputMessage: SendMessage of each connection.
unfoldable pub output : Bytes → List Child → List Child × List (ℕ × List Action)
output msg [] = ([], [])
output msg (c ∷ cs) =
    let rest = output msg cs in
    let call = send_message msg c in
    if c.connected then (call.0 ∷ rest.0, (c.id, call.1) ∷ rest.1) else (c ∷ rest.0, rest.1)

pub data Event : Type 0 where
  accepted : Bool → Event
  erased : ℕ → Event
  message : Bytes → Event
  stopped started : Event

unfoldable pub step : Event → Server → Server
step (accepted ec) s = accept_handler ec s
step (erased id) s = erase_client id s
step (message msg) s = record s { clients = (output msg s.clients).0 }
step stopped s = stop s
step started s = start s
