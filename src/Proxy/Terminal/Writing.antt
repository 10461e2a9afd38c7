-- ===== src/Proxy/Terminal/Writing.antt =====
-- What the serial port writes: no byte is lost or changes its place, and none waits without a write.
use proxy_channels.Base.{
  ℕ, ltb, ◌≡◌, refl, sym, List, [], ◌∷◌, ◌++◌, Bytes, Bool, ◌&&◌, drop, ap, ◌∙◌, inl, inr,
  Bool-cases, true, false, if◌then◌else◌, take, take-append-drop, append-nil, arith,
}
use proxy_channels.Proxy.Terminal.{
  Terminal, Action, async_write_some, async_read_some, input_message, queue_setup, close_port,
  write_start, success, aborted, failed, Event, set_up, read_done, written, message, stopped, step,
  setup, setup_async, setup_start, is_empty, read_complete, do_close, stop, replace_crlf, do_write,
  write_complete,
}

-- The bytes that an event adds to the buffer, and those that a completed write takes from it.
unfoldable pub accepted : Event → Bytes
accepted (message msg) = replace_crlf msg
accepted _ = []

-- A port with the bytes of the async_write_some that it has started and that has not ended.
pub record Wired : Type 0 where
  pub port : Terminal
  pub outstanding : Bytes

-- The bytes of the write that is outstanding after the actions of a call.
unfoldable pub outgoing : List Action → Bytes → Bytes
outgoing [] b = b
outgoing (async_write_some bytes ∷ acts) b = outgoing acts bytes
outgoing (async_read_some ∷ acts) b = outgoing acts b
outgoing (input_message m ∷ acts) b = outgoing acts b
outgoing (queue_setup ∷ acts) b = outgoing acts b
outgoing (close_port ∷ acts) b = outgoing acts b

unfoldable pub kept : Event → Bytes → Bytes
kept (written ec) b = []
kept _ b = b

-- The bytes that a completed write has sent.
unfoldable pub sent : Event → Wired → Bytes
sent (written success) w = w.outstanding
sent _ w = []

unfoldable pub wired_step : Event → Wired → Wired
unfolding outgoing kept
wired_step v w =
    let call = step v w.port in
    record { port = call.0; outstanding = outgoing call.1 (kept v w.outstanding) }

-- While a write is in progress some byte waits, and if the port is open the first of them is on its
-- way; otherwise none is.
pub record InStep (w : Wired) : Type 0 where
  pub waits : w.port.write_in_progress ≡ true → is_empty w.port.write_buffer ≡ false
  pub flies :
      w.outstanding
      ≡ (if w.port.is_opened && w.port.write_in_progress then take 1 w.port.write_buffer else [])

-- A completed write is one that was started, and does not fail; the port is set up, or a read of it is
-- aborted, while no write is outstanding; no message is empty.
unfoldable pub IsPossible : Event → Wired → Type 0
unfolding is_empty replace_crlf
IsPossible (set_up over open_error options_set) w = w.outstanding ≡ []
IsPossible (read_done over aborted n) w = w.outstanding ≡ []
IsPossible (read_done over _ n) w = Unit
IsPossible (written success) w = is_empty w.outstanding ≡ false
IsPossible (written _) w = ⊥
IsPossible (message msg) w = is_empty (replace_crlf msg) ≡ false
IsPossible stopped w = Unit

abbrev pub Keeps : Bytes → Bytes → Terminal → Terminal → Type 0
Keeps went came s t = went ++ t.write_buffer ≡ s.write_buffer ++ came

unchanged : (s : Terminal) → s.write_buffer ≡ s.write_buffer ++ []
unchanged s = sym (append-nil s.write_buffer)

front_stays : (b c : Bytes) → is_empty b ≡ false → take 1 b ≡ take 1 (b ++ c)
unfolding is_empty
front_stays [] c h = absurd (ground arith)
front_stays (x ∷ b) c h = refl

more_waits : (b c : Bytes) → is_empty c ≡ false → is_empty (b ++ c) ≡ false
unfolding is_empty
more_waits [] c h = h
more_waits (x ∷ b) c h = refl

first_flies : (b : Bytes) → is_empty b ≡ false → is_empty (take 1 b) ≡ false
unfolding is_empty
first_flies [] h = h
first_flies (x ∷ b) h = refl

flying :
    (w : Wired)
    → InStep w
    → (p o : Bool) → w.port.write_in_progress ≡ p
    → w.port.is_opened ≡ o
    → w.outstanding ≡ (if o && p then take 1 w.port.write_buffer else [])
flying w i p o hp ho =
    i.flies
    ∙ ap (λ q. if w.port.is_opened && q then take 1 w.port.write_buffer else []) hp
    ∙ ap (λ q. if q && p then take 1 w.port.write_buffer else []) ho

empty_false : is_empty [] ≡ false → ⊥
unfolding is_empty
empty_false h = ground arith

empty_twice : (b : Bool) → b ≡ true → b ≡ false → ⊥
empty_twice b h k = cc

message-Keeps :
    (msg : Bytes) (w : Wired)
    → InStep w
    → is_empty (replace_crlf msg) ≡ false
    → Keeps [] (replace_crlf msg) w.port (wired_step (message msg) w).port
      × InStep (wired_step (message msg) w)
unfolding wired_step outgoing kept step do_write write_start
message-Keeps msg w i h = go w.port.write_in_progress w.port.is_opened refl refl
  where
    go :
        (p o : Bool)
        → w.port.write_in_progress ≡ p
        → w.port.is_opened ≡ o
        → Keeps [] (replace_crlf msg) w.port (wired_step (message msg) w).port
          × InStep (wired_step (message msg) w)
    go true true hp ho =
        rw (hp, ho)
          (
            refl,
            record {
              waits = λ q. more_waits w.port.write_buffer (replace_crlf msg) h;
              flies =
                  flying w i true true hp ho
                  ∙ front_stays w.port.write_buffer (replace_crlf msg) (i.waits hp);
            },
          )
    go true false hp ho =
        rw (hp, ho)
          (
            refl,
            record {
              waits = λ q. more_waits w.port.write_buffer (replace_crlf msg) h;
              flies = flying w i true false hp ho;
            },
          )
    go false true hp ho =
        rw (hp, ho)
          (
            refl,
            record {
              waits = λ q. more_waits w.port.write_buffer (replace_crlf msg) h;
              flies = refl;
            },
          )
    go false false hp ho =
        rw (hp, ho)
          (
            refl,
            record {
              waits = λ q. more_waits w.port.write_buffer (replace_crlf msg) h;
              flies = flying w i false false hp ho;
            },
          )

-- A byte that was on its way was the first that waited, on an open port.
written-Keeps :
    (w : Wired)
    → InStep w
    → is_empty w.outstanding ≡ false
    → Keeps w.outstanding [] w.port (wired_step (written success) w).port
      × InStep (wired_step (written success) w)
unfolding wired_step outgoing kept step write_complete write_start
written-Keeps w i h = go w.port.write_in_progress w.port.is_opened refl refl
  where
    b : Bytes
    b = w.port.write_buffer

    whole : w.outstanding ≡ take 1 b → w.outstanding ++ drop 1 b ≡ b ++ []
    whole q = ap (λ l. l ++ drop 1 b) q ∙ take-append-drop 1 b ∙ sym (append-nil b)

    nothing : w.outstanding ≡ [] → ⊥
    nothing q = empty_false (sym (ap is_empty q) ∙ h)

    go :
        (p o : Bool)
        → w.port.write_in_progress ≡ p
        → w.port.is_opened ≡ o
        → Keeps w.outstanding [] w.port (wired_step (written success) w).port
          × InStep (wired_step (written success) w)
    go true true hp ho = elim (Bool-cases (is_empty (drop 1 b))) [
      | inl e ↦
          rw (ho, e)
            (whole (flying w i true true hp ho), record { waits = λ q. absurd cc; flies = refl })
      | inr e ↦
          rw (ho, e) (whole (flying w i true true hp ho), record { waits = λ q. e; flies = refl })
    ]
    go true false hp ho = absurd (nothing (flying w i true false hp ho))
    go false true hp ho = absurd (nothing (flying w i false true hp ho))
    go false false hp ho = absurd (nothing (flying w i false false hp ho))

setup_start-Keeps :
    (w : Wired)
    → InStep w
    → w.outstanding ≡ []
    → Keeps [] [] w.port (wired_step (set_up false false true) w).port
      × InStep (wired_step (set_up false false true) w)
unfolding wired_step outgoing kept step setup setup_start write_start
setup_start-Keeps w i h = elim (Bool-cases (is_empty w.port.write_buffer)) [
  | inl e ↦
      rw e
        (unchanged w.port, record { waits = i.waits; flies = idle w.port.write_in_progress refl e })
  | inr e ↦ rw e (unchanged w.port, record { waits = λ q. e; flies = refl })
]
  where
    idle :
        (p : Bool)
        → w.port.write_in_progress ≡ p
        → is_empty w.port.write_buffer ≡ true
        → w.outstanding ≡ (if p then take 1 w.port.write_buffer else [])
    idle true hp e = absurd (empty_twice (is_empty w.port.write_buffer) e (i.waits hp))
    idle false hp e = h

set_up-Keeps :
    (over open_error options_set : Bool) (w : Wired)
    → InStep w
    → w.outstanding ≡ []
    → let v = set_up over open_error options_set in
      Keeps [] [] w.port (wired_step v w).port × InStep (wired_step v w)
unfolding wired_step outgoing kept step setup setup_async
set_up-Keeps true open_error options_set w i h =
    (unchanged w.port, record { waits = i.waits; flies = i.flies })
set_up-Keeps false true options_set w i h =
    (unchanged w.port, record { waits = λ q. absurd cc; flies = h })
set_up-Keeps false false false w i h =
    (unchanged w.port, record { waits = i.waits; flies = i.flies })
set_up-Keeps false false true w i h = setup_start-Keeps w i h

read_done-Keeps :
    (over : Bool) (n : ℕ) (w : Wired)
    → InStep w
    → let v = read_done over success n in
      Keeps [] [] w.port (wired_step v w).port × InStep (wired_step v w)
unfolding wired_step outgoing kept step read_complete
read_done-Keeps over n w i = elim (Bool-cases (ltb 1 n)) [
  | inl e ↦ rw e (unchanged w.port, record { waits = i.waits; flies = i.flies })
  | inr e ↦ rw e (unchanged w.port, record { waits = i.waits; flies = i.flies })
]

aborted-Keeps :
    (over : Bool) (n : ℕ) (w : Wired)
    → w.outstanding ≡ []
    → let v = read_done over aborted n in
      Keeps [] [] w.port (wired_step v w).port × InStep (wired_step v w)
unfolding wired_step outgoing kept step read_complete setup_async
aborted-Keeps true n w h = (unchanged w.port, record { waits = λ q. absurd cc; flies = h })
aborted-Keeps false n w h = (unchanged w.port, record { waits = λ q. absurd cc; flies = h })

failed-Keeps :
    (over : Bool) (n : ℕ) (w : Wired)
    → InStep w
    → let v = read_done over failed n in
      Keeps [] [] w.port (wired_step v w).port × InStep (wired_step v w)
unfolding wired_step outgoing kept step read_complete do_close
failed-Keeps over n w i = (unchanged w.port, record { waits = i.waits; flies = i.flies })

stopped-Keeps :
    (w : Wired)
    → InStep w
    → Keeps [] [] w.port (wired_step stopped w).port × InStep (wired_step stopped w)
unfolding wired_step outgoing kept step stop do_close
stopped-Keeps w i = (unchanged w.port, record { waits = i.waits; flies = i.flies })

-- Let some byte wait while a write is in progress, the first of them be on its way if the port is open,
-- and none be otherwise. Let no message be empty and no write fail, let a write that completes be one
-- that was started, and let no write be outstanding when the port is set up or a read of it is aborted.
-- Then after an event the bytes that a completed write sent, followed by those that wait, are those
-- that waited before it, followed by those that it added; and the first of those that wait is again on
-- its way in the same way.
pub step-Keeps :
    (v : Event) (w : Wired)
    → InStep w
    → IsPossible v w
    → Keeps (sent v w) (accepted v) w.port (wired_step v w).port × InStep (wired_step v w)
unfolding sent accepted IsPossible
step-Keeps (set_up over open_error options_set) w i h =
    set_up-Keeps over open_error options_set w i h
step-Keeps (read_done over success n) w i h = read_done-Keeps over n w i
step-Keeps (read_done over aborted n) w i h = aborted-Keeps over n w h
step-Keeps (read_done over failed n) w i h = failed-Keeps over n w i
step-Keeps (written success) w i h = written-Keeps w i h
step-Keeps (written aborted) w i h = absurd h
step-Keeps (written failed) w i h = absurd h
step-Keeps (message msg) w i h = message-Keeps msg w i h
step-Keeps stopped w i h = stopped-Keeps w i

-- Bytes of an open port wait only while a write is on its way.
abbrev pub IsServed : Terminal → Type 0
IsServed s = s.is_opened ≡ true → s.write_in_progress ≡ false → is_empty s.write_buffer ≡ true

-- Every event keeps it so that bytes of an open port wait only while a write is in progress.
pub step-IsServed : (v : Event) (s : Terminal) → IsServed s → IsServed (step v s).0
unfolding step setup setup_async setup_start read_complete do_close stop do_write write_complete
step-IsServed (set_up over open_error options_set) s h = λ o w. ground arith
step-IsServed (read_done over success n) s h = λ o w. ground arith
step-IsServed (read_done over aborted n) s h = λ o w. ground arith
step-IsServed (read_done over failed n) s h = λ o w. ground arith
step-IsServed (written success) s h = λ o w. ground arith
step-IsServed (written aborted) s h = λ o w. ground arith
step-IsServed (written failed) s h = λ o w. ground arith
step-IsServed (message msg) s h = λ o w. ground arith
step-IsServed stopped s h = h
