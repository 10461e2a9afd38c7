-- ===== src/Examples/Connections.antt =====
-- Connections, the serial port and the registry of actors.
use proxy_channels.Proxy.Terminal.{Terminal}
use proxy_channels.Proxy.Terminal
use proxy_channels.Proxy.Terminal.Writing
use proxy_channels.Proxy.Terminal.Writing.{Keeps, InStep, wired_step, step-Keeps}
use proxy_channels.Base.{◌≡◌, refl, [], ◌∷◌, true, false, arith, replicate, ok}
use proxy_channels.Oscar.Endian.{object_value, object_bytes}
use proxy_channels.Oscar.Endian.Swap.{little_endian_host, byte_swap}
use proxy_channels.Oscar.Memory.{read}
use proxy_channels.Oscar.Tlv.{get_value_item}
use proxy_channels.Proxy.TcpChild.{Child, read_handler, back}
use proxy_channels.Proxy.TcpChild.Written.{drain, drain-replicate}
use proxy_channels.Proxy.TcpChild.Readers.{Reader}
use proxy_channels.Proxy.TcpChild.Making.{make_oscar, serve_some, serve_some-stream}
use proxy_channels.Proxy.TcpChild.Reassembly.{Packet, serve, stream, packets, serve-stream}
use proxy_channels.Proxy.TcpServer.{Server, accepted, step}
use proxy_channels.Proxy.TcpServer.Clients.{HasIds, step-HasIds}

abbrev pub writer : Child
writer = record {
  id = 0;
  msg_queue = (1 ∷ []) ∷ (2 ∷ []) ∷ [];
  out_buffer = 7 ∷ 8 ∷ 9 ∷ [];
  idle_write = false;
  connected = true;
}

drain-replicate_example : drain 2 writer ≡ replicate 2 (2 ∷ [])
unfolding back
drain-replicate_example = drain-replicate writer (1 ∷ []) ((2 ∷ []) ∷ []) refl

abbrev pub reader : Reader
reader = record {
  child = writer;
  in_buff_size = 1024;
  in_buffer = replicate 6 0;
  body_read_bytes = 0;
  header_read_bytes = 0;
  body_size = 0;
}

pub short_size : get_value_item little_endian_host 2 4 (42 ∷ 1 ∷ 0 ∷ 0 ∷ 0 ∷ 2 ∷ []) ≡ ok 2
unfolding get_value_item read byte_swap object_value object_bytes
short_size = refl

abbrev pub short_packet : Packet little_endian_host
short_packet = record {
  header_tail = 1 ∷ 0 ∷ 0 ∷ 0 ∷ 2 ∷ [];
  body = 5 ∷ 6 ∷ [];
  size_of_tail = refl;
  size_of_body = omega arith;
  holds_size = short_size;
}

serve-stream_example :
    serve little_endian_host 5 read_handler 0 6
      (stream little_endian_host (short_packet ∷ short_packet ∷ []))
      reader
    ≡ ok (packets little_endian_host (short_packet ∷ short_packet ∷ []))
serve-stream_example =
    serve-stream little_endian_host (short_packet ∷ short_packet ∷ []) reader 5
      (record { no_header = refl; room = refl }) (omega arith)

abbrev server : Server
server = record { clients = writer ∷ []; counter = 1; listens = true; connected = true }

step-HasIds_example : HasIds (step (accepted false) server)
step-HasIds_example =
    step-HasIds (accepted false) server (omega arith) ((omega arith, tt), (tt, tt))

abbrev port : Terminal
port = record {
  in_buff_size = 1024;
  read_buffer = [];
  write_buffer = 65 ∷ 66 ∷ [];
  write_in_progress = true;
  is_opened = true;
  output_connected = true;
  input_connected = true;
}

-- The first byte of the port is on its way.
abbrev sending : Writing.Wired
sending = record { port = port; outstanding = 65 ∷ [] }

step-Keeps_example :
    let done = Terminal.written Terminal.success in
    Keeps (Writing.sent done sending) (Writing.accepted done) port (wired_step done sending).port
    × InStep (wired_step done sending)
unfolding Writing.IsPossible Terminal.is_empty
step-Keeps_example =
    step-Keeps (Terminal.written Terminal.success) sending
      (record { waits = λ q. refl; flies = refl }) refl

serve_some-stream_example :
    serve_some little_endian_host 2 5
      (stream little_endian_host (short_packet ∷ short_packet ∷ []))
      (make_oscar 1024 0).0
    ≡ ok (packets little_endian_host (short_packet ∷ short_packet ∷ []))
serve_some-stream_example =
    serve_some-stream little_endian_host 1024 0 2 5 short_packet (short_packet ∷ []) (omega arith)
      (omega arith) (omega arith)
