-- ===== src/Proxy/TcpChild/Parts.antt =====
-- A header of an Oscar packet that arrives in two parts: the first read takes what is there, and the
-- second waits for the rest.
use proxy_channels.Base.{
  suc, ◌+◌, ◌-◌, ◌%◌, ◌^◌, ◌<◌, ◌≡◌, refl, sym, ap, ◌∙◌, [], ◌∷◌, ◌++◌, Bytes, false, arith, length,
  drop, length-append, length-drop, ok, ◌==◌,
}
use proxy_channels.Oscar.Endian.{Endian}
use proxy_channels.Oscar.Memory.Fills.{Fills-write}
use proxy_channels.Oscar.Snac.{flap_mark}
use proxy_channels.Proxy.TcpChild.{read_handler, read_data_handler, read_exact}
use proxy_channels.Proxy.TcpChild.Readers.{Reader, size_add, size_sub}
use proxy_channels.Proxy.TcpChild.Readers.Oscar.{on_read}
use proxy_channels.Proxy.TcpChild.Reassembly.{
  Packet, IsIdle, handle, receive, with_header, receive-header,
}
use proxy_channels.Proxy.TcpChild.Serving.{write_behind}
use proxy_channels.Proxy.TcpChild.Serving

module _ (e : Endian) (p : Packet e) (s : Reader) (i : IsIdle e s) (t h : Bytes)
    (split : p.header_tail ≡ t ++ h) (later : 0 < length h) where
  abbrev pub first : Bytes
  first = flap_mark ∷ t

  lengths : length first + length h ≡ 6
  lengths = omega (arith, ap length split, length-append {0} t h, p.size_of_tail)

  -- The connection between the two parts.
  abbrev pub waiting : Reader
  waiting = record s {
    header_read_bytes = length first;
    in_buffer = first ++ drop (length first) s.in_buffer;
  }

  on_read-first :
      on_read e false
        (length first)
        (record s { in_buffer = first ++ drop (length first) s.in_buffer })
      ≡ ok (waiting, read_exact read_handler (length first) (length h) ∷ [])
  unfolding on_read size_add size_sub
  on_read-first = rw (i.no_header, got, not_all, left) refl
    where
      got : (0 + suc (length t)) % 2 ^ 64 ≡ suc (length t)
      got = omega (arith, lengths)

      not_all : (suc (length t) == 6) ≡ false
      not_all = ground (arith, lengths)

      left : (6 + 2 ^ 64 - suc (length t)) % 2 ^ 64 ≡ length h
      left = omega (arith, lengths)

  pub receive-first :
      receive e read_handler 0 first s
      ≡ ok (waiting, read_exact read_handler (length first) (length h) ∷ [])
  unfolding Serving.receive handle
  receive-first =
      rw ((Fills-write [] first 0 refl).at_rest s.in_buffer (omega (arith, lengths, i.room)))
        on_read-first

  on_read-second :
      on_read e false (length h) (record waiting { in_buffer = flap_mark ∷ p.header_tail })
      ≡ ok (with_header e p s, read_exact read_data_handler 6 (length p.body) ∷ [])
  unfolding on_read with_header size_add
  on_read-second = rw (got, p.holds_size) refl
    where
      got : (suc (length t) + length h) % 2 ^ 64 ≡ 6
      got = omega (arith, lengths)

  pub receive-second :
      receive e read_handler (length first) h waiting
      ≡ ok (with_header e p s, read_exact read_data_handler 6 (length p.body) ∷ [])
  unfolding Serving.receive handle
  receive-second =
      rw
        (write_behind first h (drop (length first) s.in_buffer) (length first) refl rest, sym split)
        on_read-second
    where
      rest : length h ≡ length (drop (length first) s.in_buffer)
      rest = omega (arith, length-drop {0} (length first) s.in_buffer, lengths, i.room)

  -- From a connection that waits for a header, if a header arrives in two parts, the second not
  -- empty, then after the first part exactly the rest is asked for, and after the second the
  -- connection is where the whole header would have brought it.
  pub receive-parts :
      (receive e read_handler 0 first s
        ≡ ok (waiting, read_exact read_handler (length first) (length h) ∷ []))
      × (receive e read_handler (length first) h waiting
          ≡ receive e read_handler 0 (flap_mark ∷ p.header_tail) s)
  receive-parts = (receive-first, receive-second ∙ sym (receive-header e p s i))
