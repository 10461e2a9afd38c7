-- ===== src/Proxy/TcpChild/Readers/Stream.antt =====
-- CTcpServerChildStream: each chunk that is read is a message.
use proxy_channels.Base.{ℕ, [], ◌∷◌, Bool, true, false, replicate, ok}
use proxy_channels.Oscar.Snac.{resize}
use proxy_channels.Proxy.TcpChild.{read_data_handler, read_some, input_message}
use proxy_channels.Proxy.TcpChild.Readers.{Reader, Handled, disconnect}

unfoldable pub on_data : Bool → ℕ → Reader → Handled
unfolding disconnect
on_data true bytes_transferred s = ok (disconnect s)
on_data false bytes_transferred s = ok (
  record s { in_buffer = replicate s.in_buff_size 0 },
  read_some read_data_handler 0 s.in_buff_size
      ∷ input_message (resize bytes_transferred s.in_buffer)
      ∷ [],
)

unfoldable pub on_read : Bool → ℕ → Reader → Handled
on_read ec bytes_transferred s = on_data ec bytes_transferred s
