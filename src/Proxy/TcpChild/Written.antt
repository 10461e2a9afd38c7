-- ===== src/Proxy/TcpChild/Written.antt =====
-- What a connection writes to its socket.
use proxy_channels.Base.{
  ℕ, zero, suc, ◌<◌, ◌≡◌, refl, ap, ◌∙◌, List, [], ◌∷◌, ◌++◌, Bytes, false, arith, ltb, lt→ltb,
  length, take, drop, replicate, take-append-drop, append_assoc,
}
use proxy_channels.Proxy.TcpChild.{Child, back, next_message, write_handler}

-- Completions that leave something of the buffer, and what they put on the wire.
abbrev pub ArePartial : List ℕ → Child → Type 0
ArePartial [] s = Unit {0}
ArePartial (n ∷ ns) s =
    (n < length s.out_buffer) × ArePartial ns (record s { out_buffer = drop n s.out_buffer })

unfoldable pub complete : List ℕ → Child → Child
complete [] s = s
complete (n ∷ ns) s = complete ns (write_handler false n s).0

unfoldable pub wire : List ℕ → Child → Bytes
wire [] s = []
wire (n ∷ ns) s = take n s.out_buffer ++ wire ns (write_handler false n s).0

partial-step :
    (n : ℕ) (s : Child)
    → n < length s.out_buffer
    → (write_handler false n s).0 ≡ record s { out_buffer = drop n s.out_buffer }
unfolding write_handler
partial-step n s h = rw (lt→ltb n (length s.out_buffer) h)

-- After writes that each leave something of the message, what went out and what is left make up the
-- message, and the queue is as it was.
pub wire-append-rest :
    (ns : List ℕ) (s : Child)
    → ArePartial ns s
    → (wire ns s ++ (complete ns s).out_buffer ≡ s.out_buffer)
      × ((complete ns s).msg_queue ≡ s.msg_queue)
unfolding wire complete
wire-append-rest [] s h = (refl, refl)
wire-append-rest (n ∷ ns) s h =
    let rest = wire-append-rest ns (record s { out_buffer = drop n s.out_buffer }) h.1 in
    rw (complete_cons, wire_cons)
      (
        append_assoc (take n s.out_buffer) (wire ns s') (complete ns s').out_buffer
            ∙ ap (λ l. take n s.out_buffer ++ l) rest.0
            ∙ take-append-drop n s.out_buffer,
        rest.1,
      )
  where
    s' : Child
    s' = record s { out_buffer = drop n s.out_buffer }

    complete_cons : complete (n ∷ ns) s ≡ complete ns s'
    complete_cons = ap (complete ns) (partial-step n s h.0)

    wire_cons : wire (n ∷ ns) s ≡ take n s.out_buffer ++ wire ns s'
    wire_cons = ap (λ t. take n s.out_buffer ++ wire ns t) (partial-step n s h.0)

-- One complete write after another, and the buffers that are started.
unfoldable pub drain : ℕ → Child → List Bytes
drain zero s = []
drain (suc n) s =
    let s' = (write_handler false (length s.out_buffer) s).0 in s'.out_buffer ∷ drain n s'

whole-step :
    (s : Child) (m : Bytes) (ms : List Bytes)
    → s.msg_queue ≡ m ∷ ms
    → (write_handler false (length s.out_buffer) s).0
      ≡ record s { msg_queue = ms; out_buffer = back m ms; idle_write = false }
unfolding write_handler next_message
whole-step s m ms h = rw (not-leb (length s.out_buffer), h) refl
  where
    not-leb : (n : ℕ) → ltb n n ≡ false
    not-leb n = ground arith

-- Of n messages that wait, complete writes start the last n times.
pub drain-replicate :
    (s : Child) (m : Bytes) (ms : List Bytes)
    → s.msg_queue ≡ m ∷ ms
    → drain (suc (length ms)) s ≡ replicate (suc (length ms)) (back m ms)
unfolding drain back
drain-replicate s m [] h = ap (λ t. t.out_buffer ∷ []) (whole-step s m [] h)
drain-replicate s m (m' ∷ ms) h =
    ap (λ t. t.out_buffer ∷ drain (suc (length ms)) t) (whole-step s m (m' ∷ ms) h)
    ∙ ap (λ l. back m (m' ∷ ms) ∷ l)
        (drain-replicate
          (record s { msg_queue = m' ∷ ms; out_buffer = back m (m' ∷ ms); idle_write = false }) m'
          ms refl)
