-- ===== src/Proxy/TcpChild/Readers/EtfLog.antt =====
-- CTcpServerChildEtfLog: a header of 12 bytes, and then the body whose size it holds.
use proxy_channels.Base.{
  ℕ, ◌+◌, [], ◌∷◌, Bool, true, false, ltb, ◌==◌, if◌then◌else◌, replicate, none, some, get_elem?,
  ok, err, ◌>>=◌, out_of_bounds, codes,
}
use proxy_channels.Utils.Timestamp.{Timespec}
use proxy_channels.Utils.LogBuilder.{LogPackage, change_file, stop_command, log_client_channel}
use proxy_channels.Oscar.Endian.{object_value}
use proxy_channels.Oscar.Memory.{read}
use proxy_channels.Oscar.Snac.{resize, flap_header_size}
use proxy_channels.Proxy.TcpChild.{read_handler, read_data_handler, read_exact, input_message}
use proxy_channels.Proxy.TcpChild.Readers.{
  Reader, Handled, disconnect, size_sub, size_add, etf_log_header_size, msg_size_offset,
  etf_log_mark,
}

-- The next header is read with the size of a FLAP header.
unfoldable pub on_data : Bool → ℕ → Reader → Handled
unfolding disconnect size_sub size_add
on_data true bytes_transferred s = ok (disconnect s)
on_data false bytes_transferred s =
    let got = size_add s.body_read_bytes bytes_transferred in
    if ltb got s.body_size
    then ok (
      record s { body_read_bytes = got },
      read_exact read_data_handler got (size_sub s.body_size got) ∷ [],
    )
    else ok (
      record s {
        body_read_bytes = got;
        header_read_bytes = 0;
        in_buffer = replicate etf_log_header_size 0;
      },
      read_exact read_handler 0 flap_header_size ∷ input_message s.in_buffer ∷ [],
    )

unfoldable pub on_read : Bool → ℕ → Reader → Handled
unfolding disconnect size_sub size_add
on_read true bytes_transferred s = ok (disconnect s)
on_read false bytes_transferred s =
    let got = size_add s.header_read_bytes bytes_transferred in
    let sized : Handled = (do
      bs ← read msg_size_offset 4 s.in_buffer
      let size = object_value bs
      let t = record s { header_read_bytes = got; body_read_bytes = 0; body_size = size }
      if ltb 0 size
          then ok (
            record t { in_buffer = resize (size + etf_log_header_size) s.in_buffer },
            read_exact read_data_handler etf_log_header_size size ∷ [],
          )
          else on_data false size t) in
    elim (get_elem? s.in_buffer 0) [
      | none ↦ err out_of_bounds
      | some c ↦
          if c == etf_log_mark
          then if got == etf_log_header_size
            then sized
            else ok (
              record s { header_read_bytes = got },
              read_exact read_handler got (size_sub etf_log_header_size got) ∷ [],
            )
          else ok (disconnect s)
    ]

-- What the constructor and the destructor send to the logger. A new package has the members that
-- they do not set from the argument.
unfoldable pub opening_record : LogPackage → Timespec → LogPackage
opening_record fresh now = record fresh {
  message = codes "Log";
  tag = codes "rpc";
  lchannel = log_client_channel;
  timestamp = now;
  command = change_file;
}

unfoldable pub closing_record : LogPackage → Timespec → LogPackage
closing_record fresh now = record fresh {
  lchannel = log_client_channel;
  timestamp = now;
  command = stop_command;
}
