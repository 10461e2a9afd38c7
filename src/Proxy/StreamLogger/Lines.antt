-- ===== src/Proxy/StreamLogger/Lines.antt =====
-- The lines that the adaptor logs depend on the bytes, and not on how the stream is cut in chunks.
use proxy_channels.Base.{
  ℕ, zero, suc, ◌+◌, ◌≤◌, ◌≡◌, refl, sym, ap, ◌∙◌, List, [], ◌∷◌, ◌++◌, Bytes, if◌then◌else◌, none,
  some, length, take, drop, arith, Bool-cases, Option-cases, inl, inr, append_assoc, append-nil,
  length-drop,
}
use proxy_channels.Utils.Timestamp.{Timespec}
use proxy_channels.Utils.LogBuilder.{LogPackage}
use proxy_channels.Proxy.Actor.{stream}
use proxy_channels.Proxy.StreamLogger.{
  Work, Logged, is_empty, find_newline, log_string, log_strings, take_chunk, do_log,
}
use proxy_channels.Proxy.StreamLogger.Text.{
  lines, rest_of, lines-none, lines-some, lines-append, rest_of-none, nothing,
}

module _ (trim_right : Bytes → Bytes) (template : LogPackage) where
  unfoldable pub messages : List LogPackage → List Bytes
  messages [] = []
  messages (p ∷ ps) = p.message ∷ messages ps

  -- What is left of the lines that are not blank.
  unfoldable pub texts : List Bytes → List Bytes
  texts [] = []
  texts (l ∷ ls) =
      let rest = texts ls in if is_empty (trim_right l) then rest else trim_right l ∷ rest

  unfoldable pub run : List (Timespec × Bytes) → Work → Logged
  run [] w = ([], w)
  run (c ∷ cs) w =
      let first = do_log trim_right template stream c.0 c.1 w in
      let rest = run cs first.1 in (first.0 ++ rest.0, rest.1)

  abbrev pub bytes : List (Timespec × Bytes) → Bytes
  bytes [] = []
  bytes (c ∷ cs) = c.1 ++ bytes cs

  messages-append : (xs ys : List LogPackage) → messages (xs ++ ys) ≡ messages xs ++ messages ys
  unfolding messages
  messages-append [] ys = refl
  messages-append (x ∷ xs) ys = ap (λ l. x.message ∷ l) (messages-append xs ys)

  texts-append : (xs ys : List Bytes) → texts (xs ++ ys) ≡ texts xs ++ texts ys
  unfolding texts
  texts-append [] ys = refl
  texts-append (l ∷ ls) ys = elim (Bool-cases (is_empty (trim_right l))) [
    | inl e ↦ rw e (texts-append ls ys)
    | inr e ↦ rw e (ap (λ t. trim_right l ∷ t) (texts-append ls ys))
  ]

  log_string-texts :
      (pos : ℕ) (w : Work)
      → messages (log_string trim_right template pos w).0 ≡ texts (take (suc pos) w.buffer ∷ [])
  unfolding log_string messages texts
  log_string-texts pos w = elim (Bool-cases (is_empty (trim_right (take (suc pos) w.buffer)))) [
    | inl e ↦ rw (one, e) refl
    | inr e ↦ rw (one, e) refl
  ]
    where
      one : pos + 1 ≡ suc pos
      one = omega arith

  log_string-rest :
      (pos : ℕ) (w : Work)
      → (log_string trim_right template pos w).1.buffer ≡ drop (suc pos) w.buffer
  unfolding log_string
  log_string-rest pos w = rw one refl
    where
      one : pos + 1 ≡ suc pos
      one = omega arith

  log_strings-none :
      (fuel : ℕ) (w : Work)
      → find_newline w.buffer ≡ none
      → log_strings trim_right template (suc fuel) w ≡ ([], w)
  unfolding log_strings
  log_strings-none fuel w f = rw (f, log_strings) refl

  log_strings-some :
      (fuel pos : ℕ) (w : Work)
      → find_newline w.buffer ≡ some pos
      → let first = log_string trim_right template pos w in
        let rest = log_strings trim_right template fuel first.1 in
        log_strings trim_right template (suc fuel) w ≡ (first.0 ++ rest.0, rest.1)
  unfolding log_strings
  log_strings-some fuel pos w f = rw (f, log_strings) refl

  no_lines : (messages [] ≡ texts (lines [])) × ([] ≡ rest_of [])
  unfolding messages texts lines rest_of
  no_lines = (refl, refl)

  no_texts : messages [] ≡ texts []
  unfolding messages texts
  no_texts = refl

  log_strings-lines :
      (fuel : ℕ) (w : Work)
      → length w.buffer ≤ fuel
      → let s = log_strings trim_right template fuel w in
        (messages s.0 ≡ texts (lines w.buffer)) × (s.1.buffer ≡ rest_of w.buffer)
  unfolding log_strings
  log_strings-lines zero w h = rw (no_bytes w.buffer h) no_lines
    where
      no_bytes : (b : Bytes) → length b ≤ 0 → b ≡ []
      no_bytes [] k = refl
      no_bytes (c ∷ s) k = absurd (omega arith)
  log_strings-lines (suc fuel) w h = elim (Option-cases (find_newline w.buffer)) [
    | inl f ↦
        rw (log_strings-none fuel w f, (lines-none w.buffer f).0, (lines-none w.buffer f).1)
          (no_texts, refl)
    | inr f ↦
        let found = lines-some w.buffer f.0 f.1 in
        let first = log_string trim_right template f.0 w in
        let left = log_string-rest f.0 w in
        let ih =
          log_strings-lines fuel first.1
            (omega (arith, ap length left, length-drop {0} (suc f.0) w.buffer, found.2)) in
        rw (log_strings-some fuel f.0 w f.1) (
          messages-append first.0 (log_strings trim_right template fuel first.1).0
              ∙ rw (log_string-texts f.0 w, ih.0, left, found.0)
                  (sym (
                    texts-append (take (suc f.0) w.buffer ∷ []) (lines (drop (suc f.0) w.buffer)))),
          ih.1 ∙ rw left (sym found.1),
        )
  ]

  take_chunk-lines :
      (now : Timespec) (msg : Bytes) (w : Work)
      → let t = take_chunk trim_right template now msg w in
        (messages t.0 ++ texts (lines t.1.buffer) ≡ texts (lines (w.buffer ++ msg)))
        × (rest_of t.1.buffer ≡ rest_of (w.buffer ++ msg))
  unfolding take_chunk messages
  take_chunk-lines now msg w = elim (Bool-cases (is_empty w.buffer)) [
    | inl e ↦ rw (e, nothing w.buffer e) (refl, refl)
    | inr e ↦ elim (Option-cases (find_newline (w.buffer ++ msg))) [
      | inl f ↦ rw (e, f) (refl, refl)
      | inr f ↦
          let joined = record w { buffer = w.buffer ++ msg } in
          let found = lines-some joined.buffer f.0 f.1 in
          rw (e, f.1, log_string-texts f.0 joined, log_string-rest f.0 joined)
            (
              rw found.0 (
                  sym (
                    texts-append (take (suc f.0) joined.buffer ∷ [])
                      (lines (drop (suc f.0) joined.buffer)))),
              sym found.1,
            )
    ]
  ]

  do_log-lines :
      (now : Timespec) (msg : Bytes) (w : Work)
      → let s = do_log trim_right template stream now msg w in
        (messages s.0 ≡ texts (lines (w.buffer ++ msg))) × (s.1.buffer ≡ rest_of (w.buffer ++ msg))
  unfolding do_log
  do_log-lines now msg w =
      let begun = take_chunk trim_right template now msg w in
      let taken = take_chunk-lines now msg w in
      let looped = log_strings-lines (length begun.1.buffer) begun.1 (omega arith) in
      (
        messages-append begun.0 _ ∙ ap (λ l. messages begun.0 ++ l) looped.0 ∙ taken.0,
        looped.1 ∙ taken.1,
      )

  -- From a buffer without a newline, however a stream is cut in chunks, the messages are the lines of all its bytes, trimmed, without
  -- the blank ones, and the bytes behind the last line wait.
  pub run-lines :
      (cs : List (Timespec × Bytes)) (w : Work)
      → find_newline w.buffer ≡ none
      → (messages (run cs w).0 ≡ texts (lines (w.buffer ++ bytes cs)))
        × ((run cs w).1.buffer ≡ rest_of (w.buffer ++ bytes cs))
  unfolding run
  run-lines [] w idle =
      rw (append-nil w.buffer, (lines-none w.buffer idle).0, (lines-none w.buffer idle).1)
        (no_texts, refl)
  run-lines (c ∷ cs) w idle =
      let first = do_log trim_right template stream c.0 c.1 w in
      let chunk = do_log-lines c.0 c.1 w in
      let ih = run-lines cs first.1 (rw chunk.1 (rest_of-none (w.buffer ++ c.1))) in
      let cut = lines-append (w.buffer ++ c.1) (bytes cs) in
      rw (← append_assoc w.buffer c.1 (bytes cs), cut.0, cut.1)
        (
          messages-append first.0 (run cs first.1).0
              ∙ rw (chunk.0, ih.0, chunk.1) (sym (texts-append (lines (w.buffer ++ c.1)) _)),
          ih.1 ∙ rw chunk.1 refl,
        )
