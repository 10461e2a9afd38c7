-- ===== src/Proxy/TcpChild/Serving.antt =====
-- The reads of a connection, whatever its protocol: `async_read` reads exactly the bytes that it was
-- asked for, as Boost.Asio documents, and calls a handler.
use proxy_channels.Base.{
  ℕ, zero, suc, ◌≤◌, ◌≡◌, refl, ap, ◌∙◌, List, [], ◌∷◌, ◌++◌, Bytes, false, arith, ltb,
  if◌then◌else◌, length, take, drop, append-nil, take-length_append, drop-length_append, Option,
  none, some, Result, ok, err, ◌>>=◌, out_of_fuel,
}
use proxy_channels.Oscar.Memory.{write}
use proxy_channels.Oscar.Memory.Fills.{Fills-write}
use proxy_channels.Proxy.TcpChild.{ReadHandler, Action, read_exact, input_message}
use proxy_channels.Proxy.TcpChild.Readers.{Reader, Handled}

-- The messages that a call delivers.
unfoldable pub messages : List Action → List Bytes
messages [] = []
messages (input_message m ∷ acts) = m ∷ messages acts
messages (a ∷ acts) = messages acts

-- The read that a call starts.
unfoldable pub started : List Action → Option (ReadHandler × ℕ × ℕ)
started [] = none
started (read_exact h at n ∷ acts) = some (h, at, n)
started (a ∷ acts) = started acts

drop_whole : (q : Bytes) → drop (length q) q ≡ []
drop_whole [] = refl
drop_whole (x ∷ q) = drop_whole q

pub take-at : (k : ℕ) (xs ys : Bytes) → k ≡ length xs → take k (xs ++ ys) ≡ xs
take-at k xs ys h = rw h (take-length_append xs ys)

pub drop-at : (k : ℕ) (xs ys : Bytes) → k ≡ length xs → drop k (xs ++ ys) ≡ ys
drop-at k xs ys h = rw h (drop-length_append xs ys)

pub write_whole : (bs q : Bytes) → length bs ≡ length q → write 0 bs q ≡ ok bs
write_whole bs q h =
    (Fills-write [] bs 0 refl).at_rest q (omega arith)
    ∙ ap ok (rw (h, drop_whole q) (append-nil bs))

pub write_behind :
    (h bs q : Bytes) (at : ℕ)
    → at ≡ length h
    → length bs ≡ length q
    → write at bs (h ++ q) ≡ ok (h ++ bs)
write_behind h bs q at k n =
    (Fills-write h bs at k).at_rest q (omega arith)
    ∙ ap (λ l. ok (h ++ l)) (rw (n, drop_whole q) (append-nil bs))

module _ (handle : ReadHandler → ℕ → Reader → Handled) where
  -- Bytes arrive at an offset of the buffer, and the handler is called.
  unfoldable pub receive : ReadHandler → ℕ → Bytes → Reader → Handled
  receive h at bs s = do
    buffer ← write at bs s.in_buffer
    handle h (length bs) (record s { in_buffer = buffer })

  -- The reads that the connection starts take `input`, until one has to wait.
  unfoldable pub serve : ℕ → ReadHandler → ℕ → ℕ → Bytes → Reader → Result (List Bytes)
  serve zero h at n input s = err out_of_fuel
  serve (suc fuel) h at n input s =
      let more : Result (List Bytes) = (do
        call ← receive h at (take n input) s
        rest ← (elim (started call.1) [
          | none ↦ ok []
          | some r ↦ serve fuel r.0 r.1 r.2 (drop n input) call.0
        ])
        ok (messages call.1 ++ rest)) in
      if ltb (length input) n then ok [] else more

  pub serve-step :
      (fuel at n : ℕ) (h : ReadHandler) (input : Bytes) (s s' : Reader) (acts : List Action)
      (h' : ReadHandler) (at' n' : ℕ) (ms : List Bytes)
      → n ≤ length input
      → receive h at (take n input) s ≡ ok (s', acts)
      → started acts ≡ some (h', at', n')
      → serve fuel h' at' n' (drop n input) s' ≡ ok ms
      → serve (suc fuel) h at n input s ≡ ok (messages acts ++ ms)
  unfolding serve
  serve-step fuel at n h input s s' acts h' at' n' ms enough call next rest =
      rw (call, next, rest, enough_read) refl
    where
      enough_read : ltb (length input) n ≡ false
      enough_read = ground arith
