-- ===== src/Proxy/TcpChild/Readers/Telnet.antt =====
-- CTcpServerChildTelnet: the first chunk may be a control sequence.
use proxy_channels.Base.{
  ℕ, [], ◌∷◌, Bool, true, false, ◌==◌, if◌then◌else◌, length, replicate, none, some, get_elem?, ok,
  err, out_of_bounds,
}
use proxy_channels.Oscar.Snac.{resize}
use proxy_channels.Proxy.TcpChild.{read_data_handler, read_some, input_message}
use proxy_channels.Proxy.TcpChild.Readers.{Reader, Handled, disconnect}

unfoldable pub on_data : Bool → ℕ → Reader → Handled
unfolding disconnect
on_data true bytes_transferred s = ok (disconnect s)
on_data false bytes_transferred s = ok (
  record s { in_buffer = replicate s.in_buff_size 0 },
  read_some read_data_handler 0 s.in_buff_size
      ∷ input_message (resize bytes_transferred s.in_buffer)
      ∷ [],
)

-- A control sequence, which starts with 0xff, is dropped.
unfoldable pub on_read : Bool → ℕ → Reader → Handled
unfolding disconnect
on_read true bytes_transferred s = ok (disconnect s)
on_read false bytes_transferred s = elim (get_elem? s.in_buffer 0) [
  | none ↦ err out_of_bounds
  | some c ↦
      if c == 255
      then ok (s, read_some read_data_handler 0 (length s.in_buffer) ∷ [])
      else on_data false bytes_transferred s
]
