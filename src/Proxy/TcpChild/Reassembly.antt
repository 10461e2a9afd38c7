-- ===== src/Proxy/TcpChild/Reassembly.antt =====
-- What an Oscar connection reassembles from the bytes that arrive.
use proxy_channels.Base.{
  ℕ, zero, suc, ◌+◌, ◌-◌, ◌*◌, ◌%◌, ◌^◌, ◌<◌, ◌≤◌, ◌≡◌, refl, sym, ap, ◌∙◌, List, [], ◌∷◌, ◌++◌,
  Bytes, false, arith, ltb, length, take, drop, replicate, append_assoc, length-append,
  length-replicate, take-length_append, drop-length_append, take_all, Result, ok,
}
use proxy_channels.Oscar.Endian.{Endian}
use proxy_channels.Oscar.Memory.{write}
use proxy_channels.Oscar.Tlv.{get_value_item}
use proxy_channels.Oscar.Snac.{resize, flap_header_size, flap_mark}
use proxy_channels.Oscar.Flap.Parser.{flap_data_size_offset}
use proxy_channels.Proxy.TcpChild.{
  ReadHandler, read_handler, read_data_handler, read_exact, input_message,
}
use proxy_channels.Proxy.TcpChild.Serving.{
  messages, started, take-at, drop-at, write_whole, write_behind, serve-step,
}
use proxy_channels.Proxy.TcpChild.Serving
use proxy_channels.Proxy.TcpChild.Readers.{Reader, Handled, size_add}
use proxy_channels.Proxy.TcpChild.Readers.Oscar.{on_read, on_data}

module _ (e : Endian) where
  unfoldable pub handle : ReadHandler → ℕ → Reader → Handled
  handle read_handler n s = on_read e false n s
  handle read_data_handler n s = on_data false n s

  abbrev pub receive : ReadHandler → ℕ → Bytes → Reader → Handled
  receive h at bs s = Serving.receive handle h at bs s

  abbrev pub serve : ℕ → ReadHandler → ℕ → ℕ → Bytes → Reader → Result (List Bytes)
  serve fuel h at n input s = Serving.serve handle fuel h at n input s

  -- A FLAP packet: the mark, and a header that holds the size of the body.
  pub record Packet : Type 0 where
    pub header_tail : Bytes
    pub body : Bytes
    pub size_of_tail : length header_tail ≡ 5
    pub size_of_body : length body < 2 ^ 16
    pub holds_size :
        get_value_item e 2 flap_data_size_offset (flap_mark ∷ header_tail) ≡ ok (length body)

  abbrev pub bytes_of : Packet → Bytes
  bytes_of p = (flap_mark ∷ p.header_tail) ++ p.body

  abbrev pub stream : List Packet → Bytes
  stream [] = []
  stream (p ∷ ps) = bytes_of p ++ stream ps

  abbrev pub packets : List Packet → List Bytes
  packets [] = []
  packets (p ∷ ps) = bytes_of p ∷ packets ps

  -- A connection that waits for a header.
  pub record IsIdle (s : Reader) : Type 0 where
    pub no_header : s.header_read_bytes ≡ 0
    pub room : length s.in_buffer ≡ flap_header_size

  unfoldable pub with_header : Packet → Reader → Reader
  with_header p s = record s {
    header_read_bytes = 6;
    body_read_bytes = 0;
    body_size = length p.body;
    in_buffer = resize (length p.body + 6) (flap_mark ∷ p.header_tail);
  }

  on_read-whole :
      (p : Packet) (s : Reader)
      → s.in_buffer ≡ flap_mark ∷ p.header_tail
      → s.header_read_bytes ≡ 0
      → on_read e false 6 s
        ≡ ok (with_header p s, read_exact read_data_handler 6 (length p.body) ∷ [])
  unfolding on_read with_header size_add
  on_read-whole p s h k = rw (h, k, p.holds_size) refl

  pub receive-header :
      (p : Packet) (s : Reader)
      → IsIdle s
      → receive read_handler 0 (flap_mark ∷ p.header_tail) s
        ≡ ok (with_header p s, read_exact read_data_handler 6 (length p.body) ∷ [])
  unfolding Serving.receive handle with_header
  receive-header p s i =
      rw (write_whole (flap_mark ∷ p.header_tail) s.in_buffer room, p.size_of_tail)
        (on_read-whole p (record s { in_buffer = flap_mark ∷ p.header_tail }) refl i.no_header)
    where
      room : suc (length p.header_tail) ≡ length s.in_buffer
      room = omega (arith, p.size_of_tail, i.room)

  -- A connection that has delivered a packet.
  unfoldable pub delivered : Packet → Reader → Reader
  delivered p s = record s {
    header_read_bytes = 0;
    body_read_bytes = length p.body;
    body_size = length p.body;
    in_buffer = replicate 6 0;
  }

  buffer_for :
      (p : Packet)
      → resize (length p.body + 6) (flap_mark ∷ p.header_tail)
        ≡ (flap_mark ∷ p.header_tail) ++ replicate (length p.body) 0
  unfolding resize
  buffer_for p =
      rw (p.size_of_tail, take_all (length p.body + 6) (flap_mark ∷ p.header_tail) fits, rest) refl
    where
      rest : length p.body + 6 - 6 ≡ length p.body
      rest = omega arith

      fits : length (flap_mark ∷ p.header_tail) ≤ length p.body + 6
      fits = omega (arith, p.size_of_tail)

  written :
      (p : Packet)
      → write 6 p.body (resize (length p.body + 6) (flap_mark ∷ p.header_tail)) ≡ ok (bytes_of p)
  written p = rw (buffer_for p) (
      write_behind (flap_mark ∷ p.header_tail) p.body (replicate (length p.body) 0) 6
        (omega (arith, p.size_of_tail)) (sym (length-replicate (length p.body) 0)))

  on_data-whole :
      (p : Packet) (s : Reader)
      → on_data false (length p.body) (record (with_header p s) { in_buffer = bytes_of p })
        ≡ ok (delivered p s, read_exact read_handler 0 6 ∷ input_message (bytes_of p) ∷ [])
  unfolding on_data with_header delivered size_add
  on_data-whole p s = rw (whole, not_less (length p.body)) refl
    where
      whole : (0 + length p.body) % 2 ^ 64 ≡ length p.body
      whole = omega (arith, p.size_of_body)

      not_less : (n : ℕ) → ltb n n ≡ false
      not_less n = ground arith

  receive-body :
      (p : Packet) (s : Reader)
      → receive read_data_handler 6 p.body (with_header p s)
        ≡ ok (delivered p s, read_exact read_handler 0 6 ∷ input_message (bytes_of p) ∷ [])
  unfolding Serving.receive handle with_header
  receive-body p s = rw (written p) (on_data-whole p s)

  module _ (p : Packet) (s : Reader) (fuel : ℕ) (rest : Bytes) (ms : List Bytes) where
    taken : take 6 ((flap_mark ∷ p.header_tail) ++ (p.body ++ rest)) ≡ flap_mark ∷ p.header_tail
    taken = take-at 6 _ _ (omega (arith, p.size_of_tail))

    dropped : drop 6 ((flap_mark ∷ p.header_tail) ++ (p.body ++ rest)) ≡ p.body ++ rest
    dropped = drop-at 6 (flap_mark ∷ p.header_tail) _ (omega (arith, p.size_of_tail))

    pub serve-body :
        serve fuel read_handler 0 6 rest (delivered p s) ≡ ok ms
        → serve (suc fuel) read_data_handler 6 (length p.body) (p.body ++ rest) (with_header p s)
          ≡ ok (bytes_of p ∷ ms)
    unfolding messages started
    serve-body after =
        serve-step handle fuel 6 (length p.body) read_data_handler (p.body ++ rest)
          (with_header p s) (delivered p s)
          (read_exact read_handler 0 6 ∷ input_message (bytes_of p) ∷ []) read_handler 0 6 ms
          (omega (arith, length-append {0} p.body rest))
          (rw (take-length_append p.body rest) (receive-body p s)) refl
          (rw (drop-length_append p.body rest) after)

    serve-packet :
        IsIdle s
        → serve fuel read_handler 0 6 rest (delivered p s) ≡ ok ms
        → serve
            (suc (suc fuel))
            read_handler
            0
            6
            ((flap_mark ∷ p.header_tail) ++ (p.body ++ rest))
            s
          ≡ ok (bytes_of p ∷ ms)
    unfolding messages started
    serve-packet i after =
        serve-step handle (suc fuel) 0 6 read_handler _ s (with_header p s)
          (read_exact read_data_handler 6 (length p.body) ∷ []) read_data_handler 6 (length p.body)
          (bytes_of p ∷ ms)
          (omega
            (arith, length-append {0} (flap_mark ∷ p.header_tail) (p.body ++ rest), p.size_of_tail))
          (rw taken (receive-header p s i)) refl (rw dropped (serve-body after))

  pub delivered-IsIdle : (p : Packet) (s : Reader) → IsIdle (delivered p s)
  unfolding delivered
  delivered-IsIdle p s = record { no_header = refl; room = refl }

  -- From a connection that waits for a header, packets that are sent one behind the other are
  -- delivered, each as one message, if the fuel is more than twice their number.
  pub serve-stream :
      (ps : List Packet) (s : Reader) (fuel : ℕ)
      → IsIdle s
      → 2 * length ps < fuel
      → serve fuel read_handler 0 flap_header_size (stream ps) s ≡ ok (packets ps)
  unfolding Serving.serve
  serve-stream ps s zero i enough = absurd (omega arith)
  serve-stream [] s (suc fuel) i enough = refl
  serve-stream (p ∷ ps) s (suc zero) i enough = absurd (omega arith)
  serve-stream (p ∷ ps) s (suc (suc fuel)) i enough =
      ap (λ input. serve (suc (suc fuel)) read_handler 0 6 input s)
        (append_assoc (flap_mark ∷ p.header_tail) p.body (stream ps))
      ∙ (serve-packet p s fuel (stream ps) (packets ps) i
          (serve-stream ps (delivered p s) fuel (delivered-IsIdle p s) (omega arith)))
