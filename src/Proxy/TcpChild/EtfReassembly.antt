-- ===== src/Proxy/TcpChild/EtfReassembly.antt =====
-- What an ETF connection reassembles from the bytes that arrive, once it has delivered a message: it
-- then asks for the 6 bytes of a FLAP header, and for the other 6 of its own.
use proxy_channels.Base.{
  ℕ, zero, suc, ◌+◌, ◌-◌, ◌*◌, ◌%◌, ◌^◌, ◌<◌, ◌≤◌, ◌≡◌, refl, sym, ap, ◌∙◌, inl, inr, List, [], ◌∷◌,
  ◌++◌, Bytes, true, false, arith, ltb, length, drop, replicate, length-append, length-drop,
  length-replicate, take-length_append, drop-length_append, take_all, append-nil, Bool-cases, ok,
}
use proxy_channels.Oscar.Endian.{object_value}
use proxy_channels.Oscar.Memory.{read, write}
use proxy_channels.Oscar.Memory.Fills.{Fills-write}
use proxy_channels.Oscar.Snac.{resize, flap_header_size}
use proxy_channels.Proxy.TcpChild.{
  ReadHandler, read_handler, read_data_handler, read_exact, input_message,
}
use proxy_channels.Proxy.TcpChild.Readers.{
  Reader, Handled, size_add, size_sub, etf_log_header_size, msg_size_offset, etf_log_mark,
}
use proxy_channels.Proxy.TcpChild.Readers.EtfLog.{on_read, on_data}
use proxy_channels.Proxy.TcpChild.Serving
use proxy_channels.Proxy.TcpChild.Serving.{
  messages, started, take-at, drop-at, write_behind, receive, serve, serve-step,
}

abbrev pub handle : ReadHandler → ℕ → Reader → Handled
handle read_handler n s = on_read false n s
handle read_data_handler n s = on_data false n s

-- A packet: the two halves of the header, which holds the size of the body.
pub record Packet : Type 0 where
  pub front : Bytes
  pub back : Bytes
  pub body : Bytes
  pub size_bytes : Bytes
  pub size_of_front : length front ≡ 5
  pub size_of_back : length back ≡ 6
  pub size_of_body : length body < 2 ^ 32
  pub has_size : read msg_size_offset 4 ((etf_log_mark ∷ front) ++ back) ≡ ok size_bytes
  pub is_size : object_value size_bytes ≡ length body

abbrev pub header : Packet → Bytes
header p = (etf_log_mark ∷ p.front) ++ p.back

abbrev pub bytes_of : Packet → Bytes
bytes_of p = header p ++ p.body

abbrev pub stream : List Packet → Bytes
stream [] = []
stream (p ∷ ps) = (etf_log_mark ∷ p.front) ++ (p.back ++ (p.body ++ stream ps))

abbrev pub packets : List Packet → List Bytes
packets [] = []
packets (p ∷ ps) = bytes_of p ∷ packets ps

-- A connection that waits for a header.
pub record IsIdle (s : Reader) : Type 0 where
  pub no_header : s.header_read_bytes ≡ 0
  pub room : length s.in_buffer ≡ etf_log_header_size

length-header : (p : Packet) → length (header p) ≡ 12
length-header p =
    omega
      (arith, length-append {0} (etf_log_mark ∷ p.front) p.back, p.size_of_front, p.size_of_back)

unfoldable pub half : Packet → Reader → Reader
half p s = record s {
  header_read_bytes = 6;
  in_buffer = (etf_log_mark ∷ p.front) ++ drop 6 s.in_buffer;
}

unfoldable pub with_header : Packet → Reader → Reader
with_header p s = record s {
  header_read_bytes = 12;
  body_read_bytes = 0;
  body_size = length p.body;
  in_buffer = resize (length p.body + 12) (header p);
}

-- A connection that has delivered a packet.
unfoldable pub delivered : Packet → Reader → Reader
delivered p s = record s {
  header_read_bytes = 0;
  body_read_bytes = length p.body;
  body_size = length p.body;
  in_buffer = replicate 12 0;
}

on_read-half :
    (s : Reader) (rest : Bytes)
    → s.header_read_bytes ≡ 0
    → s.in_buffer ≡ etf_log_mark ∷ rest
    → on_read false 6 s ≡ ok (record s { header_read_bytes = 6 }, read_exact read_handler 6 6 ∷ [])
unfolding on_read size_add size_sub
on_read-half s rest h k = rw (h, k) refl

receive-front :
    (p : Packet) (s : Reader)
    → IsIdle s
    → receive handle read_handler 0 (etf_log_mark ∷ p.front) s
      ≡ ok (half p s, read_exact read_handler 6 6 ∷ [])
unfolding Serving.receive half
receive-front p s i =
    let bs = etf_log_mark ∷ p.front in
    let size : length bs ≡ 6 = omega (arith, p.size_of_front) in
    let put : write 0 bs s.in_buffer ≡ ok (bs ++ drop 6 s.in_buffer) =
      (Fills-write [] bs 0 refl).at_rest s.in_buffer (omega (arith, size, i.room))
      ∙ ap (λ n. ok (bs ++ drop n s.in_buffer)) size in
    rw (put, p.size_of_front)
      (on_read-half (record s { in_buffer = bs ++ drop 6 s.in_buffer }) _ i.no_header refl)

-- The second half of the header: the body is asked for, or there is none.
on_read-body :
    (p : Packet) (s : Reader)
    → s.header_read_bytes ≡ 6
    → s.in_buffer ≡ header p
    → ltb 0 (length p.body) ≡ true
    → on_read false 6 s ≡ ok (with_header p s, read_exact read_data_handler 12 (length p.body) ∷ [])
unfolding on_read with_header size_add
on_read-body p s h k full = rw (h, k, p.has_size, p.is_size, full) refl

on_read-empty :
    (p : Packet) (s : Reader)
    → s.header_read_bytes ≡ 6
    → s.in_buffer ≡ header p
    → length p.body ≡ 0
    → on_read false 6 s
      ≡ ok (delivered p s, read_exact read_handler 0 6 ∷ input_message (header p) ∷ [])
unfolding on_read on_data delivered size_add
on_read-empty p s h k none = rw (h, k, p.has_size, p.is_size, none) refl

write_back :
    (p : Packet) (s : Reader) → IsIdle s → write 6 p.back (half p s).in_buffer ≡ ok (header p)
unfolding half
write_back p s i =
    write_behind (etf_log_mark ∷ p.front) p.back (drop 6 s.in_buffer) 6
      (omega (arith, p.size_of_front))
      (omega (arith, p.size_of_back, length-drop 6 s.in_buffer, i.room))

receive-back :
    (p : Packet) (s : Reader)
    → IsIdle s
    → ltb 0 (length p.body) ≡ true
    → receive handle read_handler 6 p.back (half p s)
      ≡ ok (with_header p s, read_exact read_data_handler 12 (length p.body) ∷ [])
unfolding Serving.receive half with_header
receive-back p s i full =
    rw (write_back p s i, p.size_of_back)
      (on_read-body p (record s { header_read_bytes = 6; in_buffer = header p }) refl refl full)

receive-last :
    (p : Packet) (s : Reader)
    → IsIdle s
    → length p.body ≡ 0
    → receive handle read_handler 6 p.back (half p s)
      ≡ ok (delivered p s, read_exact read_handler 0 6 ∷ input_message (header p) ∷ [])
unfolding Serving.receive half delivered
receive-last p s i none =
    rw (write_back p s i, p.size_of_back)
      (on_read-empty p (record s { header_read_bytes = 6; in_buffer = header p }) refl refl none)

buffer_for :
    (p : Packet) → resize (length p.body + 12) (header p) ≡ header p ++ replicate (length p.body) 0
unfolding resize
buffer_for p =
    let left : length p.body + 12 - 12 ≡ length p.body = omega arith in
    rw
      (
        length-header p,
        take_all (length p.body + 12) (header p) (omega (arith, length-header p)),
        left,
      )
      refl

on_data-whole :
    (p : Packet) (s : Reader)
    → on_data false (length p.body) (record (with_header p s) { in_buffer = bytes_of p })
      ≡ ok (delivered p s, read_exact read_handler 0 6 ∷ input_message (bytes_of p) ∷ [])
unfolding on_data with_header delivered size_add
on_data-whole p s =
    let whole : (0 + length p.body) % 2 ^ 64 ≡ length p.body = omega (arith, p.size_of_body) in
    let not_less : ltb (length p.body) (length p.body) ≡ false = ground arith in
    rw (whole, not_less) refl

receive-body :
    (p : Packet) (s : Reader)
    → receive handle read_data_handler 12 p.body (with_header p s)
      ≡ ok (delivered p s, read_exact read_handler 0 6 ∷ input_message (bytes_of p) ∷ [])
unfolding Serving.receive with_header
receive-body p s =
    let put : write 12 p.body (resize (length p.body + 12) (header p)) ≡ ok (bytes_of p) =
      ap (write 12 p.body) (buffer_for p)
      ∙ write_behind (header p) p.body (replicate (length p.body) 0) 12 (sym (length-header p))
          (sym (length-replicate (length p.body) 0)) in
    rw put (on_data-whole p s)

module _ (p : Packet) (s : Reader) (i : IsIdle s) (rest : Bytes) (ms : List Bytes) where
  no_body : ltb 0 (length p.body) ≡ false → (length p.body ≡ 0) × (p.body ≡ [])
  no_body h = (ground arith, nil p.body (ground arith))
    where
      nil : (b : Bytes) → length b ≡ 0 → b ≡ []
      nil [] k = refl
      nil (x ∷ b) k = absurd (omega arith)

  serve-front :
      (fuel : ℕ)
      → serve handle fuel read_handler 6 6 (p.back ++ (p.body ++ rest)) (half p s) ≡ ok ms
      → serve handle
          (suc fuel)
          read_handler
          0
          6
          ((etf_log_mark ∷ p.front) ++ (p.back ++ (p.body ++ rest)))
          s
        ≡ ok ms
  unfolding messages started
  serve-front fuel after =
      let size : 6 ≡ length (etf_log_mark ∷ p.front) = omega (arith, p.size_of_front) in
      serve-step handle fuel 0 6 read_handler _ s (half p s) (read_exact read_handler 6 6 ∷ [])
        read_handler 6 6 ms
        (omega
          (arith, length-append {0} (etf_log_mark ∷ p.front) (p.back ++ (p.body ++ rest)), size))
        (rw (take-at 6 (etf_log_mark ∷ p.front) (p.back ++ (p.body ++ rest)) size)
          (receive-front p s i))
        refl (rw (drop-at 6 (etf_log_mark ∷ p.front) (p.back ++ (p.body ++ rest)) size) after)

  back_fits : 6 ≤ length (p.back ++ (p.body ++ rest))
  back_fits = omega (arith, length-append {0} p.back (p.body ++ rest), p.size_of_back)

  serve-back :
      (fuel : ℕ)
      → ltb 0 (length p.body) ≡ true
      → serve handle fuel read_handler 0 6 rest (delivered p s) ≡ ok ms
      → serve handle (suc (suc fuel)) read_handler 6 6 (p.back ++ (p.body ++ rest)) (half p s)
        ≡ ok (bytes_of p ∷ ms)
  unfolding messages started
  serve-back fuel full after =
      serve-step handle (suc fuel) 6 6 read_handler _ (half p s) (with_header p s)
        (read_exact read_data_handler 12 (length p.body) ∷ []) read_data_handler 12 (length p.body)
        (bytes_of p ∷ ms) back_fits
        (rw (take-at 6 p.back (p.body ++ rest) (sym p.size_of_back)) (receive-back p s i full)) refl
        (rw (drop-at 6 p.back (p.body ++ rest) (sym p.size_of_back)) (
          serve-step handle fuel 12 (length p.body) read_data_handler (p.body ++ rest)
            (with_header p s) (delivered p s)
            (read_exact read_handler 0 6 ∷ input_message (bytes_of p) ∷ []) read_handler 0 6 ms
            (omega (arith, length-append {0} p.body rest))
            (rw (take-length_append p.body rest) (receive-body p s)) refl
            (rw (drop-length_append p.body rest) after)))

  serve-last :
      (fuel : ℕ)
      → ltb 0 (length p.body) ≡ false
      → serve handle fuel read_handler 0 6 rest (delivered p s) ≡ ok ms
      → serve handle (suc fuel) read_handler 6 6 (p.back ++ (p.body ++ rest)) (half p s)
        ≡ ok (bytes_of p ∷ ms)
  unfolding messages started
  serve-last fuel none after =
      let nil = no_body none in
      serve-step handle fuel 6 6 read_handler _ (half p s) (delivered p s)
        (read_exact read_handler 0 6 ∷ input_message (header p) ∷ []) read_handler 0 6 ms back_fits
        (rw (take-at 6 p.back (p.body ++ rest) (sym p.size_of_back)) (receive-last p s i nil.0))
        refl
        (rw (drop-at 6 p.back (p.body ++ rest) (sym p.size_of_back))
          (ap (λ b. serve handle fuel read_handler 0 6 (b ++ rest) (delivered p s)) nil.1 ∙ after))
      ∙ ap (λ b. ok ((b ∷ []) ++ ms))
          (sym (append-nil (header p)) ∙ ap (λ b. header p ++ b) (sym nil.1))

delivered-IsIdle : (p : Packet) (s : Reader) → IsIdle (delivered p s)
unfolding delivered
delivered-IsIdle p s = record { no_header = refl; room = refl }

-- From a connection that waits for a header and has asked for its first 6 bytes, packets that are sent
-- one behind the other are delivered, each as one message, also those without a body, if the fuel is
-- more than three times their number.
pub serve-stream_etf :
    (ps : List Packet) (s : Reader) (fuel : ℕ)
    → IsIdle s
    → 3 * length ps < fuel
    → serve handle fuel read_handler 0 flap_header_size (stream ps) s ≡ ok (packets ps)
unfolding Serving.serve
serve-stream_etf ps s zero i enough = absurd (omega arith)
serve-stream_etf [] s (suc fuel) i enough = refl
serve-stream_etf (p ∷ ps) s (suc zero) i enough = absurd (omega arith)
serve-stream_etf (p ∷ ps) s (suc (suc zero)) i enough = absurd (omega arith)
serve-stream_etf (p ∷ ps) s (suc (suc (suc fuel))) i enough =
    let after : (n : ℕ)
        → fuel ≤ n
        → serve handle n read_handler 0 6 (stream ps) (delivered p s) ≡ ok (packets ps) =
      λ n h. serve-stream_etf ps (delivered p s) n (delivered-IsIdle p s) (omega arith) in
    serve-front p s i (stream ps) (packets (p ∷ ps)) (suc (suc fuel))
      (elim (Bool-cases (ltb 0 (length p.body))) [
        | inl full ↦ serve-back p s i (stream ps) (packets ps) fuel full (after fuel (omega arith))
        | inr none ↦
            serve-last p s i (stream ps) (packets ps) (suc fuel) none
              (after (suc fuel) (omega arith))
      ])
