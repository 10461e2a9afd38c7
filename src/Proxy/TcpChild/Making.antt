-- ===== src/Proxy/TcpChild/Making.antt =====
-- How connections are made (the constructors in proxy/tcpserver_child.cpp), and the first read of an
-- Oscar connection: `async_read_some` brings what there is, at least a byte.
use proxy_channels.Base.{
  ℕ, zero, suc, ◌-◌, ◌*◌, ◌<◌, ◌≤◌, ◌≡◌, refl, sym, ap, ◌∙◌, List, [], ◌∷◌, ◌++◌, Bytes, true,
  arith, length, take, drop, replicate, append_assoc, length-append, length-take, length-drop,
  length-replicate, take-append-drop, take-length_append, drop-length_append, none, some, Result,
  ok, ◌>>=◌, ◌==◌, Bool-cases, inl, inr,
}
use proxy_channels.Oscar.Endian.{Endian}
use proxy_channels.Oscar.Snac.{resize, flap_header_size, flap_mark}
use proxy_channels.Utils.Timestamp.{Timespec}
use proxy_channels.Utils.LogBuilder.{LogPackage}
use proxy_channels.Proxy.TcpChild.{
  ReadHandler, read_handler, read_data_handler, Action, read_some, read_exact,
}
use proxy_channels.Proxy.TcpChild.Readers.{Reader}
use proxy_channels.Proxy.TcpChild.Readers.EtfLog.{opening_record}
use proxy_channels.Proxy.TcpChild.Serving.{messages, started, take-at, drop-at, serve-step}
use proxy_channels.Proxy.TcpChild.Reassembly.{
  Packet, bytes_of, stream, packets, IsIdle, handle, receive, serve, serve-body, serve-stream,
  receive-header, with_header, delivered, delivered-IsIdle,
}
use proxy_channels.Proxy.TcpChild.Parts

-- The constructor of CTcpServerChild, with the counts of its heirs at 0.
unfoldable pub make_child : ℕ → ℕ → Reader
make_child in_buff_size id = record {
  child = record { id = id; msg_queue = []; out_buffer = []; idle_write = true; connected = true };
  in_buff_size = in_buff_size;
  in_buffer = replicate in_buff_size 0;
  body_read_bytes = 0;
  header_read_bytes = 0;
  body_size = 0;
}

unfoldable pub make_stream : ℕ → ℕ → Reader × List Action
unfolding make_child
make_stream in_buff_size id =
    (make_child in_buff_size id, read_some read_handler 0 in_buff_size ∷ [])

unfoldable pub make_telnet : ℕ → ℕ → Reader × List Action
unfolding make_child
make_telnet in_buff_size id =
    (make_child in_buff_size id, read_some read_handler 0 in_buff_size ∷ [])

unfoldable pub make_oscar : ℕ → ℕ → Reader × List Action
unfolding make_child
make_oscar in_buff_size id =
    let s = make_child in_buff_size id in
    (
      record s { in_buffer = resize flap_header_size s.in_buffer },
      read_some read_handler 0 flap_header_size ∷ [],
    )

-- With the record that it sends to the logger.
unfoldable pub make_etf_log : LogPackage → Timespec → ℕ → ℕ → (Reader × List Action) × LogPackage
unfolding make_child opening_record
make_etf_log fresh now in_buff_size id = (
  (make_child in_buff_size id, read_some read_handler 0 in_buff_size ∷ []),
  opening_record fresh now,
)

length-resize : (n : ℕ) (q : Bytes) → length (resize n q) ≡ n
unfolding resize
length-resize n q = omega (
  arith,
  length-append {0} (take n q) (replicate (n - length q) 0),
  length-take {0} n q,
  length-replicate {A = ℕ} (n - length q) 0,
)

module _ (e : Endian) where
  -- A new Oscar connection waits for a header.
  make_oscar-IsIdle : (in_buff_size id : ℕ) → IsIdle e (make_oscar in_buff_size id).0
  unfolding make_oscar make_child
  make_oscar-IsIdle in_buff_size id = record {
    no_header = refl;
    room = length-resize flap_header_size (replicate in_buff_size 0);
  }

  -- The first read brings `n` bytes, and the reads that follow take the rest.
  unfoldable pub serve_some : ℕ → ℕ → Bytes → Reader → Result (List Bytes)
  serve_some n fuel input s = do
    call ← receive e read_handler 0 (take n input) s
    rest ← (elim (started call.1) [
      | none ↦ ok []
      | some r ↦ serve e fuel r.0 r.1 r.2 (drop n input) call.0
    ])
    ok (messages call.1 ++ rest)

  serve_some-step :
      (n fuel : ℕ) (input : Bytes) (s s' : Reader) (acts : List Action) (h' : ReadHandler)
      (at' n' : ℕ) (ms : List Bytes)
      → receive e read_handler 0 (take n input) s ≡ ok (s', acts)
      → started acts ≡ some (h', at', n')
      → serve e fuel h' at' n' (drop n input) s' ≡ ok ms
      → serve_some n fuel input s ≡ ok (messages acts ++ ms)
  unfolding serve_some
  serve_some-step n fuel input s s' acts h' at' n' ms call next rest = rw (call, next, rest) refl

  module _ (p : Packet e) (s : Reader) (i : IsIdle e s) (rest : Bytes) (ms : List Bytes) where
    -- The first read brings the whole header.
    serve_some-whole :
        (fuel : ℕ)
        → serve e fuel read_handler 0 6 rest (delivered e p s) ≡ ok ms
        → serve_some 6 (suc fuel) (bytes_of e p ++ rest) s ≡ ok (bytes_of e p ∷ ms)
    unfolding messages started
    serve_some-whole fuel after =
        let header = flap_mark ∷ p.header_tail in
        let size : 6 ≡ length header = omega (arith, p.size_of_tail) in
        ap (λ input. serve_some 6 (suc fuel) input s) (append_assoc header p.body rest)
        ∙ serve_some-step 6 (suc fuel) (header ++ (p.body ++ rest)) s (with_header e p s)
            (read_exact read_data_handler 6 (length p.body) ∷ []) read_data_handler 6
            (length p.body) (bytes_of e p ∷ ms)
            (ap (λ b. receive e read_handler 0 b s) (take-at 6 header (p.body ++ rest) size)
              ∙ receive-header e p s i)
            refl
            (ap (λ b. serve e (suc fuel) read_data_handler 6 (length p.body) b (with_header e p s))
                (drop-at 6 header (p.body ++ rest) size)
              ∙ serve-body e p s fuel rest ms after)

    -- It brings a part of the header.
    module _ (t h : Bytes) (split : p.header_tail ≡ t ++ h) (later : 0 < length h) where
      parts : bytes_of e p ++ rest ≡ (flap_mark ∷ t) ++ (h ++ (p.body ++ rest))
      parts = ap (λ x. ((flap_mark ∷ x) ++ p.body) ++ rest) split ∙ simp append_assoc

      serve_some-part :
          (n fuel : ℕ)
          → n ≡ length (flap_mark ∷ t)
          → serve e fuel read_handler 0 6 rest (delivered e p s) ≡ ok ms
          → serve_some n (suc (suc fuel)) (bytes_of e p ++ rest) s ≡ ok (bytes_of e p ∷ ms)
      unfolding messages started
      serve_some-part n fuel size after =
          let first = flap_mark ∷ t in
          let behind = h ++ (p.body ++ rest) in
          let between = Parts.waiting e p s i t h split later in
          ap (λ input. serve_some n (suc (suc fuel)) input s) parts
          ∙ serve_some-step n (suc (suc fuel)) (first ++ behind) s between
              (read_exact read_handler (length first) (length h) ∷ []) read_handler (length first)
              (length h) (bytes_of e p ∷ ms)
              (ap (λ b. receive e read_handler 0 b s) (take-at n first behind size)
                ∙ Parts.receive-first e p s i t h split later)
              refl
              (ap (λ b. serve e (suc (suc fuel)) read_handler (length first) (length h) b between)
                  (drop-at n first behind size)
                ∙ serve-step (handle e) (suc fuel) (length first) (length h) read_handler behind
                    between (with_header e p s)
                    (read_exact read_data_handler 6 (length p.body) ∷ []) read_data_handler 6
                    (length p.body) (bytes_of e p ∷ ms)
                    (omega (arith, length-append {0} h (p.body ++ rest)))
                    (ap (λ b. receive e read_handler (length first) b between)
                        (take-length_append h (p.body ++ rest))
                      ∙ Parts.receive-second e p s i t h split later)
                    refl
                    (ap
                        (λ b.
                          serve e (suc fuel) read_data_handler 6 (length p.body) b
                            (with_header e p s))
                        (drop-length_append h (p.body ++ rest))
                      ∙ serve-body e p s fuel rest ms after))

  -- A new Oscar connection delivers packets that are sent one behind the other, each as one message,
  -- however many bytes of the first header its first read brings, if there is a packet, and the fuel
  -- of the reads that follow is more than twice the number of the packets.
  pub serve_some-stream :
      (in_buff_size id n fuel : ℕ) (p : Packet e) (ps : List (Packet e))
      → 0 < n
      → n ≤ flap_header_size
      → 2 * length (p ∷ ps) < fuel
      → serve_some n fuel (stream e (p ∷ ps)) (make_oscar in_buff_size id).0
        ≡ ok (packets e (p ∷ ps))
  serve_some-stream in_buff_size id zero fuel p ps some_bytes fits enough = absurd (omega arith)
  serve_some-stream in_buff_size id (suc k) zero p ps some_bytes fits enough = absurd (omega arith)
  serve_some-stream in_buff_size id (suc k) (suc zero) p ps some_bytes fits enough =
      absurd (omega arith)
  serve_some-stream in_buff_size id (suc k) (suc (suc fuel)) p ps some_bytes fits enough =
      let s = (make_oscar in_buff_size id).0 in
      let i = make_oscar-IsIdle in_buff_size id in
      let after : (n : ℕ)
          → fuel ≤ n
          → serve e n read_handler 0 6 (stream e ps) (delivered e p s) ≡ ok (packets e ps) =
        λ n h. serve-stream e ps (delivered e p s) n (delivered-IsIdle e p s) (omega arith) in
      elim (Bool-cases (k == 5)) [
        | inl whole ↦
            let all : k ≡ 5 = ground arith in
            ap (λ m. serve_some (suc m) (suc (suc fuel)) (stream e (p ∷ ps)) s) all
            ∙ serve_some-whole p s i (stream e ps) (packets e ps) (suc fuel)
                (after (suc fuel) (omega arith))
        | inr part ↦
            let less : k < 5 = ground arith in
            serve_some-part p s i (stream e ps) (packets e ps) (take k p.header_tail)
              (drop k p.header_tail) (sym (take-append-drop k p.header_tail))
              (omega (arith, less, length-drop {0} k p.header_tail, p.size_of_tail)) (suc k) fuel
              (omega (arith, less, length-take {0} k p.header_tail, p.size_of_tail))
              (after fuel (omega arith))
      ]
