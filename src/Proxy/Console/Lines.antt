-- ===== src/Proxy/Console/Lines.antt =====
-- What a console delivers: the lines of its input.
use proxy_channels.Base.{
  ℕ, zero, suc, ◌-◌, ◌≤◌, ◌<◌, ◌≡◌, refl, sym, ap, ◌∙◌, List, [], ◌∷◌, ◌++◌, Bytes, true, false,
  leb, none, some, length, take, drop, replicate, append-nil, append_assoc, Option-cases, inl, inr,
  arith, length-drop,
}
use proxy_channels.Proxy.StreamLogger.{find_newline, is_empty}
use proxy_channels.Proxy.StreamLogger.Text.{
  lines, rest_of, lines-none, lines-some, lines-append, rest_of-none,
}
use proxy_channels.Proxy.Console.{
  Console, not_found, success, read_until_newline, start, get_bytes, read_bytes, read_handler,
  messages, serve, arrive, run, joined, max_body_length, AreReads,
}

length_cut : (n : ℕ) (b : Bytes) → n ≤ length b → length (take n b) ≡ n
length_cut zero b h = refl
length_cut (suc n) [] h = absurd (omega arith)
length_cut (suc n) (c ∷ b) h = ap suc (length_cut n b (omega arith))

get_bytes-take : (n : ℕ) (b : Bytes) → n ≤ length b → get_bytes n b ≡ take n b
unfolding get_bytes
get_bytes-take n b h = ap (λ m. take n b ++ replicate m 0) none_missing ∙ append-nil (take n b)
  where
    none_missing : n - length (take n b) ≡ 0
    none_missing = omega (arith, length_cut n b h)

not_empty : (n : ℕ) (b : Bytes) → suc n ≤ length b → is_empty (take (suc n) b) ≡ false
unfolding is_empty
not_empty n [] h = absurd (omega arith)
not_empty n (c ∷ b) h = refl

read-line :
    (n : ℕ) (s : Console)
    → suc n ≤ length s.in_buffer
    → messages (read_handler success (suc n) s).1 ≡ take (suc n) s.in_buffer ∷ []
unfolding read_handler read_bytes start messages
read-line n s h = rw (get_bytes-take (suc n) s.in_buffer h, not_empty n s.in_buffer h) refl

serve-none :
    (fuel : ℕ) (s : Console) → find_newline s.in_buffer ≡ none → serve (suc fuel) s ≡ ([], s)
unfolding serve
serve-none fuel s f = rw (serve, f) refl

serve-some :
    (fuel n : ℕ) (s : Console)
    → find_newline s.in_buffer ≡ some n
    → suc n ≤ length s.in_buffer
    → let rest = serve fuel (record s { in_buffer = drop (suc n) s.in_buffer }) in
      serve (suc fuel) s ≡ (take (suc n) s.in_buffer ∷ rest.0, rest.1)
unfolding read_handler read_bytes start serve
serve-some fuel n s f h =
    let rest = serve fuel (record s { in_buffer = drop (suc n) s.in_buffer }) in
    served ∙ ap (λ m. (m ++ rest.0, rest.1)) (read-line n s h)
  where
    served : serve (suc fuel) s ≡ (
      messages (read_handler success (suc n) s).1
          ++ (serve fuel (read_handler success (suc n) s).0).0,
      (serve fuel (read_handler success (suc n) s).0).1,
    )
    served = rw (serve, f) refl

serve-lines :
    (fuel : ℕ) (s : Console)
    → length s.in_buffer < fuel
    → ((serve fuel s).0 ≡ lines s.in_buffer) × ((serve fuel s).1.in_buffer ≡ rest_of s.in_buffer)
serve-lines zero s h = absurd (omega arith)
serve-lines (suc fuel) s h = elim (Option-cases (find_newline s.in_buffer)) [
  | inl f ↦
      let parts = lines-none s.in_buffer f in
      (
        ap (λ r. r.0) (serve-none fuel s f) ∙ sym parts.0,
        ap (λ r. r.1.in_buffer) (serve-none fuel s f) ∙ sym parts.1,
      )
  | inr (n, f) ↦
      let parts = lines-some s.in_buffer n f in
      let eq = serve-some fuel n s f parts.2 in
      let rest =
        serve-lines fuel (record s { in_buffer = drop (suc n) s.in_buffer })
          (omega (arith, length-drop (suc n) s.in_buffer, parts.2)) in
      (
        ap (λ r. r.0) eq ∙ ap (λ l. take (suc n) s.in_buffer ∷ l) rest.0 ∙ sym parts.0,
        ap (λ r. r.1.in_buffer) eq ∙ rest.1 ∙ sym parts.1,
      )
]

arrive-lines :
    (bs : Bytes) (s : Console)
    → length (s.in_buffer ++ bs) ≤ max_body_length
    → ((arrive bs s).0 ≡ lines (s.in_buffer ++ bs))
      × ((arrive bs s).1.in_buffer ≡ rest_of (s.in_buffer ++ bs))
unfolding arrive
arrive-lines bs s h = rw (has_room (length (s.in_buffer ++ bs)) h) (
    serve-lines (suc (length (s.in_buffer ++ bs))) (record s { in_buffer = s.in_buffer ++ bs })
      (omega arith))
  where
    has_room : (n : ℕ) → n ≤ 512 → leb n 512 ≡ true
    has_room n k = ground arith

-- From a console whose buffer holds no newline, however its input is cut into reads, each of which
-- brings no more than the buffer of 512 bytes has room for, the messages are the lines of all of it,
-- and what stands behind the last line is kept.
pub run-joined :
    (bss : List Bytes) (s : Console)
    → find_newline s.in_buffer ≡ none
    → AreReads bss s
    → ((run bss s).0 ≡ lines (s.in_buffer ++ joined bss))
      × ((run bss s).1.in_buffer ≡ rest_of (s.in_buffer ++ joined bss))
unfolding run joined
run-joined [] s f a =
    rw (append-nil s.in_buffer) (sym (lines-none s.in_buffer f).0, sym (lines-none s.in_buffer f).1)
run-joined (bs ∷ bss) s f a =
    let text = s.in_buffer ++ bs in
    let first = arrive-lines bs s a.0 in
    let rest = run-joined bss (arrive bs s).1 (ap find_newline first.1 ∙ rest_of-none text) a.1 in
    let whole = lines-append text (joined bss) in
    let same = append_assoc s.in_buffer bs (joined bss) in
    (
      ap (λ l. l ++ (run bss (arrive bs s).1).0) first.0
          ∙ ap (λ l. lines text ++ l) (rest.0 ∙ ap (λ b. lines (b ++ joined bss)) first.1)
          ∙ sym whole.0
          ∙ ap lines same,
      rest.1 ∙ ap (λ b. rest_of (b ++ joined bss)) first.1 ∙ sym whole.1 ∙ ap rest_of same,
    )

-- A full buffer without a newline is read again and again: nothing is delivered or taken.
pub read_handler-not_found :
    (s : Console) → read_handler not_found 0 s ≡ (s, read_until_newline ∷ [])
unfolding read_handler read_bytes get_bytes start is_empty
read_handler-not_found s = refl
