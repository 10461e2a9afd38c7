-- ===== src/LogClient/Wire/Outstanding.antt =====
-- What the client puts on the wire, by the writes that it starts: the packets of the packages that it
-- accepted, one after another.
use proxy_channels.Base.{
  ℕ, ◌≡◌, refl, sym, ap, ◌∙◌, List, [], ◌∷◌, ◌++◌, Bytes, Bool, true, false, ltb, if◌then◌else◌, ok,
  length, take, drop, append_assoc, append-nil, Bool-cases, inl, inr, ◌+◌,
}
use mathlib.Core.Path.{subst}
use proxy_channels.Oscar.Endian.{Endian}
use proxy_channels.Oscar.Memory.{Storage}
use proxy_channels.Utils.LogBuilder.{
  LogPackage, LoggingMode, logging_to_server, no_logging, stop_command,
}
use proxy_channels.Utils.LockQueue
use proxy_channels.LogClient.{
  pack, control_package, Client, Action, write_from, print, throw, Call, start_write, write_popped,
  write_next_message, push, write_handler, close_log_file, begin_stop, Event, run, pushed, stopping,
  written, write_failed, step,
}
use proxy_channels.LogClient.Order.{accepted, step-Gives}
use proxy_channels.LogClient.Wire.{
  packets, ArePackable, in_flight, unsent, IsPossible, next-busy, next-popped, push-taken,
  push-unsent, write_handler-unsent,
}

-- A client with the bytes of the async_write that it has started and that has not ended.
pub record Wired : Type 0 where
  pub client : Client
  pub outstanding : Bytes

-- The bytes of the write that is outstanding after the actions of a call: those from the offset of
-- the started write on.
unfoldable pub outgoing : List Action → Client → Bytes → Bytes
outgoing [] s b = b
outgoing (write_from at ∷ acts) s b = outgoing acts s (drop at s.current_message)
outgoing (print p ∷ acts) s b = outgoing acts s b
outgoing (throw x ∷ acts) s b = outgoing acts s b

-- The end of a write, with or without an error, leaves none outstanding.
unfoldable pub kept : Event → Bytes → Bytes
kept (written n) b = []
kept (write_failed n) b = []
kept (pushed p) b = b
kept (stopping now channel) b = b

-- The bytes of the outstanding write that its end has put on the wire.
unfoldable pub sent : Event → Wired → Bytes
sent (written n) w = take n w.outstanding
sent (write_failed n) w = take n w.outstanding
sent (pushed p) w = []
sent (stopping now channel) w = []

-- A client without an outstanding write.
abbrev pub idle_wired : Client → Wired
idle_wired s = record { client = s; outstanding = [] }

module _ (e : Endian) (debug : Bool) where
  unfoldable pub wired_step : Event → Wired → Wired
  unfolding outgoing kept
  wired_step v w =
      let call = step e debug v w.client in
      record { client = call.0; outstanding = outgoing call.1 call.0 (kept v w.outstanding) }

  -- The outstanding write is that of the rest of the current message.
  abbrev pub InStep : Wired → Type 0
  InStep w = w.outstanding ≡ in_flight e debug w.client

  -- What is outstanding, and the packets of the queue and of what is accepted later.
  abbrev pub to_send : Wired → List LogPackage → Bytes
  to_send w later = w.outstanding ++ packets e debug w.client.next_request (w.client.queue ++ later)

  -- After a call, with what was outstanding before it.
  abbrev Carries : Bytes → Call → Type 0
  Carries b c = outgoing c.1 c.0 b ≡ in_flight e debug c.0

  start_write-Carries :
      (s : Client) (p : LogPackage) (b : Bytes) (stg : Storage)
      → (pack e debug p s.next_request).0 ≡ ok stg
      → Carries b (start_write e debug s p)
  unfolding start_write outgoing
  start_write-Carries s p b stg k = rw (start_write, k) refl

  next-none :
      (s : Client)
      → s.queue ≡ []
      → s.write_in_progress ≡ false
      → write_next_message e debug s ≡ (record s { queue = []; write_in_progress = false }, [])
  unfolding write_next_message LockQueue.pop_try write_popped
  next-none s h idle = rw (idle, h) refl

  next-idle :
      (s : Client) (q : List LogPackage) (b : Bytes)
      → s.queue ≡ q
      → s.write_in_progress ≡ false
      → ArePackable e debug q
      → b ≡ []
      → Carries b (write_next_message e debug s)
  unfolding outgoing
  next-idle s [] b h idle k none = subst (Carries b) (sym (next-none s h idle)) none
  next-idle s (p ∷ q) b h idle k none =
      let packed = k.0 s.next_request in
      subst (Carries b) (sym (next-popped e debug s p q h idle))
        (start_write-Carries (record s { queue = q }) p b packed.0 packed.1)

  next-Carries :
      (s : Client) (b : Bytes)
      → ArePackable e debug s.queue
      → b ≡ in_flight e debug s
      → Carries b (write_next_message e debug s)
  unfolding outgoing
  next-Carries s b k h = elim (Bool-cases s.write_in_progress) [
    | inl busy ↦ subst (Carries b) (sym (next-busy e debug s busy)) h
    | inr idle ↦
        next-idle s s.queue b refl idle k
          (h ∙ ap (λ w. if w then drop s.transferred s.current_message else []) idle)
  ]

  ArePackable-front :
      (xs ys : List LogPackage) → ArePackable e debug (xs ++ ys) → ArePackable e debug xs
  ArePackable-front [] ys k = tt
  ArePackable-front (x ∷ xs) ys k = (k.0, ArePackable-front xs ys k.1)

  -- A call that leaves the client, and starts no write.
  idle_call :
      (s : Client) (b : Bytes) (acts : List Action)
      → outgoing acts s b ≡ b
      → b ≡ in_flight e debug s
      → (c : Call) → c ≡ (s, acts)
      → Carries b c
  idle_call s b acts none h c same = subst (Carries b) (sym same) (none ∙ h)

  push-printed :
      (p : LogPackage) (s : Client)
      → s.logging_mode ≡ no_logging
      → push e debug p s ≡ (s, print p ∷ [])
  unfolding push
  push-printed p s m = rw m refl

  push-stopped :
      (p : LogPackage) (s : Client)
      → s.logging_mode ≡ logging_to_server
      → s.stop_in_progress ≡ true
      → push e debug p s ≡ (s, [])
  unfolding push
  push-stopped p s m l = rw (m, l) refl

  push-Carries :
      (p : LogPackage) (s : Client) (b : Bytes)
      → ArePackable e debug (s.queue ++ accepted (pushed p) s)
      → b ≡ in_flight e debug s
      → Carries b (push e debug p s)
  unfolding outgoing
  push-Carries p s b k h = go s.logging_mode s.stop_in_progress refl refl
    where
      queued : Client
      queued = record s { queue = s.queue ++ p ∷ [] }

      new :
          s.logging_mode ≡ logging_to_server
          → s.stop_in_progress ≡ false
          → accepted (pushed p) s ≡ p ∷ []
      new m l = rw (m, l) refl

      go :
          (m : LoggingMode) (c : Bool)
          → s.logging_mode ≡ m
          → s.stop_in_progress ≡ c
          → Carries b (push e debug p s)
      go no_logging c m l = idle_call s b (print p ∷ []) refl h _ (push-printed p s m)
      go logging_to_server true m l = idle_call s b [] refl h _ (push-stopped p s m l)
      go logging_to_server false m l =
          subst (Carries b) (sym (push-taken e debug p s m l)) (
            next-Carries queued b (subst (λ ps. ArePackable e debug (s.queue ++ ps)) (new m l) k) h)

  write_handler-Carries :
      (n : ℕ) (s : Client)
      → IsPossible e debug (written n) s
      → ArePackable e debug s.queue
      → Carries [] (write_handler e debug false n s)
  unfolding write_handler outgoing
  write_handler-Carries n s h k =
      elim (Bool-cases (ltb (s.transferred + n) (length s.current_message))) [
        | inl more ↦
            rw more
              (ap (λ b. if b then drop (s.transferred + n) s.current_message else []) (sym h.0))
        | inr done ↦ rw done (
            next-idle (record s { transferred = s.transferred + n; write_in_progress = false })
              s.queue [] refl refl k refl)
      ]

  outgoing-same :
      (acts : List Action) (s t : Client) (b : Bytes)
      → s.current_message ≡ t.current_message
      → outgoing acts s b ≡ outgoing acts t b
  unfolding outgoing
  outgoing-same [] s t b h = refl
  outgoing-same (write_from at ∷ acts) s t b h =
      outgoing-same acts s t (drop at s.current_message) h ∙ ap (λ m. outgoing acts t (drop at m)) h
  outgoing-same (print p ∷ acts) s t b h = outgoing-same acts s t b h
  outgoing-same (throw x ∷ acts) s t b h = outgoing-same acts s t b h

  step-InStep :
      (v : Event) (w : Wired)
      → InStep w
      → IsPossible e debug v w.client
      → ArePackable e debug (w.client.queue ++ accepted v w.client)
      → InStep (wired_step v w)
  unfolding wired_step kept step begin_stop close_log_file
  step-InStep (pushed p) w i h k = push-Carries p w.client w.outstanding k i
  step-InStep (stopping now channel) w i h k =
      let p = control_package stop_command now channel [] [] in
      let c = push e debug p w.client in
      outgoing-same c.1 (record c.0 { stop_in_progress = true }) c.0 w.outstanding refl
      ∙ push-Carries p w.client w.outstanding k i
  step-InStep (written n) w i h k =
      write_handler-Carries n w.client h (ArePackable-front w.client.queue [] k)
  step-InStep (write_failed n) w i h k = absurd h

  step-in_flight :
      (v : Event) (w : Wired) (later : List LogPackage)
      → InStep w
      → IsPossible e debug v w.client
      → ArePackable e debug (w.client.queue ++ (accepted v w.client ++ later))
      → sent v w ++ unsent e debug (step e debug v w.client).0 later
        ≡ unsent e debug w.client (accepted v w.client ++ later)
  unfolding step begin_stop close_log_file sent
  step-in_flight (pushed p) w later i h k = push-unsent e debug p w.client later k
  step-in_flight (stopping now channel) w later i h k =
      push-unsent e debug (control_package stop_command now channel [] []) w.client later k
  step-in_flight (written n) w later i h k =
      let s = w.client in
      let flying : w.outstanding ≡ drop s.transferred s.current_message =
        i ∙ ap (λ b. if b then drop s.transferred s.current_message else []) h.0 in
      ap (λ l. take n l ++ unsent e debug (write_handler e debug false n s).0 later) flying
      ∙ write_handler-unsent e debug n s later h k
  step-in_flight (write_failed n) w later i h k = absurd h

  -- Let the bytes of the outstanding write be the rest of the current message, or none when no write is
  -- in progress; let an event be no failed write, and write at most what is left of the current message;
  -- and let all that waits and comes be packable. Then the bytes of the outstanding write that the event
  -- puts on the wire, followed by those of the write that the client has then outstanding and by the
  -- packets that are to follow, are what was outstanding and to follow before, with the packets of the
  -- packages that the event brings in; and the outstanding write is again the rest of the current
  -- message.
  pub step-to_send :
      (v : Event) (w : Wired) (later : List LogPackage)
      → InStep w
      → IsPossible e debug v w.client
      → ArePackable e debug (w.client.queue ++ (accepted v w.client ++ later))
      → (sent v w ++ to_send (wired_step v w) later ≡ to_send w (accepted v w.client ++ later))
        × InStep (wired_step v w)
  unfolding wired_step
  step-to_send v w later i h k =
      let s = w.client in
      let front : ArePackable e debug (s.queue ++ accepted v s) =
        ArePackable-front (s.queue ++ accepted v s) later
          (subst (ArePackable e debug) (sym (append_assoc s.queue (accepted v s) later)) k) in
      let next = step-InStep v w i h front in
      let t = (wired_step v w).client in
      (
        ap (λ b. sent v w ++ (b ++ packets e debug t.next_request (t.queue ++ later))) next
            ∙ step-in_flight v w later i h k
            ∙ ap (λ b. b ++ packets e debug s.next_request (s.queue ++ (accepted v s ++ later)))
                (sym i),
        next,
      )

  abbrev pub accepted_all : List Event → Client → List LogPackage
  accepted_all [] s = []
  accepted_all (v ∷ vs) s = let rest = accepted_all vs (step e debug v s).0 in accepted v s ++ rest

  -- The client after a run, with its outstanding write, and what the run has put on the wire.
  unfoldable pub wired_run : List Event → Wired → Wired
  unfolding wired_step
  wired_run [] w = w
  wired_run (v ∷ vs) w = wired_run vs (wired_step v w)

  abbrev pub wire : List Event → Wired → Bytes
  wire [] w = []
  wire (v ∷ vs) w = let rest = wire vs (wired_step v w) in sent v w ++ rest

  abbrev pub ArePossible : List Event → Client → Type 0
  ArePossible [] s = Unit
  ArePossible (v ∷ vs) s = IsPossible e debug v s × ArePossible vs (step e debug v s).0

  ArePackable-step :
      (v : Event) (s : Client) (later : List LogPackage)
      → ArePackable e debug (s.queue ++ (accepted v s ++ later))
      → ArePackable e debug ((step e debug v s).0.queue ++ later)
  ArePackable-step v s later k = elim (step-Gives e debug v s) [
    | inl stays ↦ subst (λ q. ArePackable e debug (q ++ later)) (sym stays) whole
    | inr (p, taken, _) ↦ (subst (λ q. ArePackable e debug (q ++ later)) (sym taken) whole).1
  ]
    where
      whole : ArePackable e debug ((s.queue ++ accepted v s) ++ later)
      whole = subst (ArePackable e debug) (sym (append_assoc s.queue (accepted v s) later)) k

  client-wired_run :
      (vs : List Event) (w : Wired) → (wired_run vs w).client ≡ run e debug vs w.client
  unfolding wired_run run wired_step
  client-wired_run [] w = refl
  client-wired_run (v ∷ vs) w = client-wired_run vs (wired_step v w)

  run-to_send :
      (vs : List Event) (w : Wired)
      → InStep w
      → ArePossible vs w.client
      → ArePackable e debug (w.client.queue ++ accepted_all vs w.client)
      → (wire vs w ++ to_send (wired_run vs w) [] ≡ to_send w (accepted_all vs w.client))
        × InStep (wired_run vs w)
  unfolding wired_run wired_step
  run-to_send [] w i h k = (refl, i)
  run-to_send (v ∷ vs) w i h k =
      let w' = wired_step v w in
      let more = accepted_all vs w'.client in
      let first = step-to_send v w more i h.0 k in
      let rest = run-to_send vs w' first.1 h.1 (ArePackable-step v w.client more k) in
      (
        append_assoc (sent v w) (wire vs w') (to_send (wired_run vs w') [])
            ∙ ap (λ l. sent v w ++ l) rest.0
            ∙ first.0,
        rest.1,
      )

  to_send-drained :
      (w : Wired) (later : List LogPackage)
      → InStep w
      → w.client.queue ≡ []
      → w.client.write_in_progress ≡ false
      → to_send w later ≡ packets e debug w.client.next_request later
  to_send-drained w later i h idle =
      let none : w.outstanding ≡ [] =
        i ∙ ap (λ b. if b then drop w.client.transferred w.client.current_message else []) idle in
      rw (h, none) refl

  -- A client that has nothing to send before and after a run has sent the packets of what it
  -- accepted.
  pub wire-drained :
      (vs : List Event) (s : Client)
      → s.queue ≡ []
      → s.write_in_progress ≡ false
      → ArePossible vs s
      → ArePackable e debug (accepted_all vs s)
      → (run e debug vs s).queue ≡ []
      → (run e debug vs s).write_in_progress ≡ false
      → wire vs (idle_wired s) ≡ packets e debug s.next_request (accepted_all vs s)
  unfolding packets
  wire-drained vs s h idle possible k drained finished =
      let w = idle_wired s in
      let i : InStep w =
        ap (λ b. if b then drop s.transferred s.current_message else []) (sym idle) in
      let same = client-wired_run vs w in
      let all =
        run-to_send vs w i possible
          (subst (λ q. ArePackable e debug (q ++ accepted_all vs s)) (sym h) k) in
      sym (append-nil (wire vs w))
      ∙ ap (λ b. wire vs w ++ b)
          (sym (
            to_send-drained (wired_run vs w) [] all.1 (ap (λ c. c.queue) same ∙ drained)
              (ap (λ c. c.write_in_progress) same ∙ finished)))
      ∙ all.0
      ∙ to_send-drained w (accepted_all vs s) i h idle
