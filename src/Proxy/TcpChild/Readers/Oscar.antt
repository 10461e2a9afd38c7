-- ===== src/Proxy/TcpChild/Readers/Oscar.antt =====
-- CTcpServerChildOscar: a FLAP header, and then the body whose size it holds.
use proxy_channels.Base.{
  ℕ, ◌+◌, [], ◌∷◌, Bool, true, false, ltb, ◌==◌, if◌then◌else◌, replicate, none, some, get_elem?,
  ok, err, ◌>>=◌, out_of_bounds,
}
use proxy_channels.Oscar.Endian.{Endian}
use proxy_channels.Oscar.Tlv.{get_value_item}
use proxy_channels.Oscar.Snac.{resize, flap_header_size, flap_mark}
use proxy_channels.Oscar.Flap.Parser.{flap_data_size_offset}
use proxy_channels.Proxy.TcpChild.{read_handler, read_data_handler, read_exact, input_message}
use proxy_channels.Proxy.TcpChild.Readers.{Reader, Handled, disconnect, size_sub, size_add}

module _ (e : Endian) where
  unfoldable pub on_read : Bool → ℕ → Reader → Handled
  unfolding disconnect size_sub size_add
  on_read true bytes_transferred s = ok (disconnect s)
  on_read false bytes_transferred s =
      let got = size_add s.header_read_bytes bytes_transferred in
      let sized : Handled = (do
        size ← get_value_item e 2 flap_data_size_offset s.in_buffer
        ok (
          record s {
            header_read_bytes = got;
            body_read_bytes = 0;
            body_size = size;
            in_buffer = resize (size + flap_header_size) s.in_buffer;
          },
          read_exact read_data_handler flap_header_size size ∷ [],
        )) in
      elim (get_elem? s.in_buffer 0) [
        | none ↦ err out_of_bounds
        | some c ↦
            if c == flap_mark
            then if got == flap_header_size
              then sized
              else ok (
                record s { header_read_bytes = got },
                read_exact read_handler got (size_sub flap_header_size got) ∷ [],
              )
            else ok (disconnect s)
      ]

unfoldable pub on_data : Bool → ℕ → Reader → Handled
unfolding disconnect size_sub size_add
on_data true bytes_transferred s = ok (disconnect s)
on_data false bytes_transferred s =
    let got = size_add s.body_read_bytes bytes_transferred in
    if ltb got s.body_size
    then ok (
      record s { body_read_bytes = got },
      read_exact read_data_handler got (size_sub s.body_size got) ∷ [],
    )
    else ok (
      record s {
        body_read_bytes = got;
        header_read_bytes = 0;
        in_buffer = replicate flap_header_size 0;
      },
      read_exact read_handler 0 flap_header_size ∷ input_message s.in_buffer ∷ [],
    )
