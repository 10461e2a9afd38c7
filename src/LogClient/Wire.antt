-- ===== src/LogClient/Wire.antt =====
-- What the client is still to put on the wire: the rest of its message and the packets of its queue.
pub mod Outstanding
use proxy_channels.Base.{
  ℕ, ◌+◌, ◌≤◌, ◌≡◌, refl, sym, ap, ◌∙◌, List, [], ◌∷◌, ◌++◌, Bytes, Bool, true, false, ltb,
  if◌then◌else◌, Result, ok, err, length, ◌⊎◌, drop_all, take, drop, drop-drop, take-append-drop,
  append_assoc, append-nil, Bool-cases, inl, inr, arith,
}
use mathlib.Core.Path.{subst}
use proxy_channels.Oscar.Endian.{Endian}
use proxy_channels.Oscar.Memory.{Storage}
use proxy_channels.Utils.LogBuilder.{
  LogPackage, LoggingMode, logging_to_server, no_logging, stop_command,
}
use proxy_channels.Utils.LockQueue
use proxy_channels.LogClient.{
  pack, control_package, Client, start_write, write_popped, write_next_message, push, write_handler,
  close_log_file, begin_stop, Event, run, pushed, stopping, written, write_failed, step,
}
use proxy_channels.LogClient.Order.{accepted, takes_calls, step-Gives}

module _ (e : Endian) (debug : Bool) where
  abbrev pub storage_of : Result Storage → Bytes
  storage_of (ok stg) = stg
  storage_of (err x) = []

  -- The packets of some packages, with consecutive request ids.
  unfoldable pub packets : ℕ → List LogPackage → Bytes
  packets num [] = []
  packets num (p ∷ ps) =
      let rest = packets (pack e debug p num).1 ps in storage_of (pack e debug p num).0 ++ rest

  -- Packages that can be packed, whatever the request id.
  abbrev pub ArePackable : List LogPackage → Type 0
  ArePackable [] = Unit
  ArePackable (p ∷ ps) =
      ((num : ℕ) → (stg : Storage) × ((pack e debug p num).0 ≡ ok stg)) × ArePackable ps

  -- What is on its way of the current message.
  abbrev pub in_flight : Client → Bytes
  in_flight s = if s.write_in_progress then drop s.transferred s.current_message else []

  -- What is still to go to the wire when `later` is accepted.
  abbrev pub unsent : Client → List LogPackage → Bytes
  unsent s later = in_flight s ++ packets s.next_request (s.queue ++ later)

  -- A completed write is one that was started, of bytes that were to go; none fails.
  abbrev pub IsPossible : Event → Client → Type 0
  IsPossible (written n) s =
      (s.write_in_progress ≡ true) × (s.transferred + n ≤ length s.current_message)
  IsPossible (write_failed n) s = ⊥
  IsPossible _ s = Unit

  pub next-empty :
      (s : Client)
      → s.queue ≡ []
      → s.write_in_progress ≡ false
      → (write_next_message e debug s).0 ≡ record s { queue = []; write_in_progress = false }
  unfolding write_next_message LockQueue.pop_try write_popped
  next-empty s h idle = rw (idle, h) refl

  unfoldable pub packed_state : Client → List LogPackage → LogPackage → Storage → Client
  packed_state s q p stg = record s {
    queue = q;
    write_in_progress = true;
    current_message = stg;
    transferred = 0;
    next_request = (pack e debug p s.next_request).1;
  }

  start-packed :
      (s : Client) (p : LogPackage) (stg : Storage)
      → (pack e debug p s.next_request).0 ≡ ok stg
      → (start_write e debug s p).0 ≡ packed_state s s.queue p stg
  unfolding start_write packed_state
  start-packed s p stg k = rw (start_write, k) refl

  pub next-popped :
      (s : Client) (p : LogPackage) (q : List LogPackage)
      → s.queue ≡ p ∷ q
      → s.write_in_progress ≡ false
      → write_next_message e debug s ≡ start_write e debug (record s { queue = q }) p
  unfolding write_next_message LockQueue.pop_try write_popped
  next-popped s p q h idle = rw (idle, h) refl

  pub next-packed :
      (s : Client) (p : LogPackage) (q : List LogPackage) (stg : Storage)
      → s.queue ≡ p ∷ q
      → s.write_in_progress ≡ false
      → (pack e debug p s.next_request).0 ≡ ok stg
      → (write_next_message e debug s).0 ≡ packed_state s q p stg
  unfolding packed_state
  next-packed s p q stg h idle k =
      ap (λ c. c.0) (next-popped s p q h idle) ∙ start-packed (record s { queue = q }) p stg k

  next-unsent :
      (s : Client) (q later : List LogPackage)
      → s.queue ≡ q
      → s.write_in_progress ≡ false
      → ArePackable (q ++ later)
      → unsent (write_next_message e debug s).0 later ≡ packets s.next_request (q ++ later)
  unfolding packets packed_state
  next-unsent s [] later h idle k = rw (next-empty s h idle) refl
  next-unsent s (p ∷ q) later h idle k =
      let packed = k.0 s.next_request in
      rw (next-packed s p q packed.0 h idle packed.1, packed.1) refl

  pub next-busy : (s : Client) → s.write_in_progress ≡ true → write_next_message e debug s ≡ (s, [])
  unfolding write_next_message
  next-busy s busy = rw busy refl

  -- Starting the next write takes nothing from what is still to go.
  write_next_message-unsent :
      (s : Client) (later : List LogPackage)
      → ArePackable (s.queue ++ later)
      → unsent (write_next_message e debug s).0 later ≡ unsent s later
  write_next_message-unsent s later k = elim (Bool-cases s.write_in_progress) [
    | inl busy ↦ ap (λ c. unsent c.0 later) (next-busy s busy)
    | inr idle ↦
        next-unsent s s.queue later refl idle k
        ∙ ap
            (λ b.
              (if b then drop s.transferred s.current_message else [])
              ++ packets s.next_request (s.queue ++ later))
            (sym idle)
  ]

  takes-true :
      (s : Client)
      → s.logging_mode ≡ logging_to_server
      → s.stop_in_progress ≡ false
      → takes_calls s ≡ true
  takes-true s m l = ground arith

  takes-false :
      (s : Client)
      → (s.logging_mode ≡ no_logging) ⊎ (s.stop_in_progress ≡ true)
      → takes_calls s ≡ false
  takes-false s h = ground arith

  pub push-taken :
      (p : LogPackage) (s : Client)
      → s.logging_mode ≡ logging_to_server
      → s.stop_in_progress ≡ false
      → push e debug p s ≡ write_next_message e debug (record s { queue = s.queue ++ p ∷ [] })
  unfolding push LockQueue.push
  push-taken p s m l = ground arith

  pub push-dropped :
      (p : LogPackage) (s : Client)
      → (s.logging_mode ≡ no_logging) ⊎ (s.stop_in_progress ≡ true)
      → (push e debug p s).0 ≡ s
  unfolding push
  push-dropped p s h = ground arith

  pub push-unsent :
      (p : LogPackage) (s : Client) (later : List LogPackage)
      → let new = if takes_calls s then p ∷ [] else [] in
        ArePackable (s.queue ++ (new ++ later))
        → unsent (push e debug p s).0 later ≡ unsent s (new ++ later)
  push-unsent p s later k = go s.logging_mode s.stop_in_progress refl refl k
    where
      Goal : Bool → Type 0
      Goal b =
          ArePackable (s.queue ++ ((if b then p ∷ [] else []) ++ later))
          → unsent (push e debug p s).0 later ≡ unsent s ((if b then p ∷ [] else []) ++ later)

      queued : Client
      queued = record s { queue = s.queue ++ p ∷ [] }

      taken : s.logging_mode ≡ logging_to_server → s.stop_in_progress ≡ false → Goal true
      taken m l k =
          ap (λ c. unsent c.0 later) (push-taken p s m l)
          ∙ write_next_message-unsent queued later
              (subst ArePackable (sym (append_assoc s.queue (p ∷ []) later)) k)
          ∙ ap (λ q. in_flight s ++ packets s.next_request q) (append_assoc s.queue (p ∷ []) later)

      go :
          (m : LoggingMode) (b : Bool)
          → s.logging_mode ≡ m
          → s.stop_in_progress ≡ b
          → Goal (takes_calls s)
      go no_logging b m l =
          subst Goal (sym (takes-false s (inl m)))
            (λ j. ap (λ t. unsent t later) (push-dropped p s (inl m)))
      go logging_to_server true m l =
          subst Goal (sym (takes-false s (inr l)))
            (λ j. ap (λ t. unsent t later) (push-dropped p s (inr l)))
      go logging_to_server false m l = subst Goal (sym (takes-true s m l)) (taken m l)

  pub write_handler-unsent :
      (n : ℕ) (s : Client) (later : List LogPackage)
      → IsPossible (written n) s
      → ArePackable (s.queue ++ later)
      → take n (drop s.transferred s.current_message)
          ++ unsent (write_handler e debug false n s).0 later
        ≡ unsent s later
  unfolding write_handler
  write_handler-unsent n s later h k =
      elim (Bool-cases (ltb (s.transferred + n) (length s.current_message))) [
        | inl more ↦ rw more more_case
        | inr done ↦ rw done (
            ap (λ l. take n cut ++ l) (next-unsent idle s.queue later refl refl k) ∙ done_case done)
      ]
    where
      rest : Bytes
      rest = packets s.next_request (s.queue ++ later)

      cut : Bytes
      cut = drop s.transferred s.current_message

      after : Bytes
      after = drop (s.transferred + n) s.current_message

      idle : Client
      idle = record s { transferred = s.transferred + n; write_in_progress = false }

      whole : cut ++ rest ≡ unsent s later
      whole = ap (λ b. (if b then cut else []) ++ rest) (sym h.0)

      halves : take n cut ++ (after ++ rest) ≡ cut ++ rest
      halves =
          sym (append_assoc (take n cut) after rest)
          ∙ ap (λ l. (take n cut ++ l) ++ rest) (sym (drop-drop n s.transferred s.current_message))
          ∙ ap (λ l. l ++ rest) (take-append-drop n cut)

      more_case :
          take n cut ++ ((if s.write_in_progress then after else []) ++ rest) ≡ unsent s later
      more_case = ap (λ b. take n cut ++ ((if b then after else []) ++ rest)) h.0 ∙ halves ∙ whole

      done_case :
          ltb (s.transferred + n) (length s.current_message) ≡ false
          → take n cut ++ rest ≡ unsent s later
      done_case done =
          ap (λ l. take n cut ++ (l ++ rest))
            (sym (drop_all (s.transferred + n) s.current_message (ground arith)))
          ∙ halves
          ∙ whole
