-- ===== src/Proxy/TcpChild.antt =====
-- proxy/tcpserver_child.cpp: the connections of a TCP server. The writing half is here; what each
-- protocol reads is in the modules below. Boost.Asio is what completes the operations: a call
-- returns the new state and the operations that it starts.
pub mod Written
pub mod Readers
pub mod Reassembly
pub mod Serving
pub mod EtfReassembly
pub mod Making
pub mod Parts
pub mod Underflow
use proxy_channels.Base.{
  ℕ, List, [], ◌∷◌, ◌++◌, Bytes, Bool, true, false, ltb, not, if◌then◌else◌, length, drop, Option,
  none, some,
}

pub record Child : Type 0 where
  pub id : ℕ
  pub msg_queue : List Bytes
  pub out_buffer : Bytes
  pub idle_write : Bool
  -- connected to the output signal of the server, with an open socket
  pub connected : Bool

pub data ReadHandler : Type 0 where
  read_handler : ReadHandler
  read_data_handler : ReadHandler

pub data Action : Type 0 where
  -- async_read_some and async_read: the handler, the offset in the buffer and the size of the rest
  read_some : ReadHandler → ℕ → ℕ → Action
  read_exact : ReadHandler → ℕ → ℕ → Action
  -- m_sigInputMessage
  input_message : Bytes → Action
  -- async_write_some of a buffer
  write_some : Bytes → Action
  -- m_sigEraseMe
  erase_me : ℕ → Action

abbrev pub Call : Type 0
Call = Child × List Action

unfoldable pub send_message : Bytes → Child → Call
send_message msg s =
    if not s.idle_write
    then (record s { msg_queue = s.msg_queue ++ msg ∷ [] }, [])
    else (record s { out_buffer = msg; idle_write = false }, write_some msg ∷ [])

unfoldable pub stop : Child → Child
stop s = record s { connected = false }

unfoldable pub destroy_me : Child → Call
unfolding stop
destroy_me s = (stop s, erase_me s.id ∷ [])

-- std::queue::back
unfoldable pub back : Bytes → List Bytes → Bytes
back m [] = m
back m (m' ∷ ms) = back m' ms

-- m_msgQueue.back(), then m_msgQueue.pop(), which removes the front
unfoldable pub next_message : List Bytes → Option (Bytes × List Bytes)
unfolding back
next_message [] = none
next_message (m ∷ ms) = some (back m ms, ms)

unfoldable pub write_handler : Bool → ℕ → Child → Call
unfolding destroy_me next_message
write_handler true bytes_transferred s = destroy_me s
write_handler false bytes_transferred s =
    if ltb bytes_transferred (length s.out_buffer)
    then (
      record s { out_buffer = drop bytes_transferred s.out_buffer },
      write_some (drop bytes_transferred s.out_buffer) ∷ [],
    )
    else elim (next_message s.msg_queue) [
      | some (msg, rest) ↦
          (record s { msg_queue = rest; out_buffer = msg; idle_write = false }, write_some msg ∷ [])
      | none ↦ (record s { idle_write = true }, [])
    ]
