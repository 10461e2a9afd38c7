-- ===== src/LogClient/Order.antt =====
-- What the client keeps from call to call, and when it no longer empties its queue.
use proxy_channels.Base.{
  ℕ, ◌+◌, ◌≡◌, refl, sym, ◌∙◌, ◌⊎◌, inl, inr, List, [], ◌∷◌, ◌++◌, Bool, true, false, arith, ltb,
  if◌then◌else◌, ok, Bool-cases, length, not, append-nil,
}
use proxy_channels.Oscar.Endian.{Endian}
use proxy_channels.Utils.LogBuilder.{
  LogPackage, LoggingMode, logging_to_server, no_logging, stop_command,
}
use proxy_channels.Utils.LockQueue
use proxy_channels.Oscar.Memory.{Storage}
use proxy_channels.LogClient.{
  Client, Event, pushed, stopping, written, write_failed, pack, start_write, write_popped,
  control_package, begin_stop, close_log_file, write_next_message, push, write_handler, step, run,
}

-- An idle client that logs to the server has nothing left to send.
abbrev pub IsDrained : Client → Type 0
IsDrained s = s.logging_mode ≡ logging_to_server → s.write_in_progress ≡ false → s.queue ≡ []

-- The calls of the program, as opposed to the end of a write.
abbrev pub IsCall : Event → Type 0
IsCall (pushed p) = Unit {0}
IsCall (stopping now channel) = Unit {0}
IsCall (written n) = ⊥
IsCall (write_failed n) = ⊥

abbrev pub AllCalls : List Event → Type 0
AllCalls [] = Unit {0}
AllCalls (v ∷ vs) = IsCall v × AllCalls vs

abbrev pub takes_calls : Client → Bool
takes_calls s = elim s.logging_mode [
  | logging_to_server ↦ not s.stop_in_progress
  | no_logging ↦ false
]

-- The packages that an event puts into the queue.
abbrev pub accepted : Event → Client → List LogPackage
accepted (pushed p) s = if takes_calls s then p ∷ [] else []
accepted (stopping now channel) s =
    if takes_calls s then control_package stop_command now channel [] [] ∷ [] else []
accepted (written n) s = []
accepted (write_failed n) s = []

module _ (e : Endian) (debug : Bool) where
  -- What the queue gives away, between what it held and took in, and what is sent of it.
  abbrev pub Gives : Client → List LogPackage → Client → Type 0
  Gives s new s' =
      (s'.queue ≡ s.queue ++ new)
      ⊎ ((p : LogPackage) × (p ∷ s'.queue ≡ s.queue ++ new)
          × ((stg : Storage)
              → (pack e debug p s.next_request).0 ≡ ok stg
              → s'.current_message ≡ stg))

  next-Gives :
      (s : Client) (q : List LogPackage) → s.queue ≡ q → Gives s [] (write_next_message e debug s).0
  unfolding write_next_message LockQueue.pop_try write_popped start_write
  next-Gives s q h = elim (Bool-cases s.write_in_progress) [
    | inl busy ↦ inl (ground (arith, append-nil s.queue))
    | inr idle ↦ idle_case q h idle
  ]
    where
      idle_case :
          (r : List LogPackage)
          → s.queue ≡ r
          → s.write_in_progress ≡ false
          → Gives s [] (write_next_message e debug s).0
      idle_case [] k idle = inl (ground arith)
      idle_case (p ∷ r) k idle =
          inr (p, ground (arith, append-nil s.queue), λ stg packed. ground arith)

  -- If a client in server mode without a write in progress has an empty queue, then so it is after
  -- every event.
  pub step-IsDrained : (v : Event) (s : Client) → IsDrained s → IsDrained (step e debug v s).0
  unfolding step push begin_stop close_log_file write_handler write_next_message LockQueue.pop_try
      write_popped start_write LockQueue.push
  step-IsDrained (pushed p) s h = ground arith
  step-IsDrained (stopping now channel) s h = ground arith
  step-IsDrained (written n) s h = ground arith
  step-IsDrained (write_failed n) s h = ground arith

  Gives-shift :
      (s : Client) (new : List LogPackage) (t : Client)
      → Gives (record s { queue = s.queue ++ new }) [] t
      → Gives s new t
  Gives-shift s new t (inl h) = inl (h ∙ append-nil (s.queue ++ new))
  Gives-shift s new t (inr (p, h, sent)) = inr (p, h ∙ append-nil (s.queue ++ new), sent)

  push-Gives :
      (p : LogPackage) (s : Client)
      → Gives s (if takes_calls s then p ∷ [] else []) (push e debug p s).0
  unfolding push LockQueue.push
  push-Gives p s = go s.logging_mode s.stop_in_progress refl refl
    where
      queued : Client
      queued = record s { queue = LockQueue.push s.queue p }

      takes : s.logging_mode ≡ logging_to_server → s.stop_in_progress ≡ false → takes_calls s ≡ true
      takes k l = ground arith

      goes :
          s.logging_mode ≡ logging_to_server
          → s.stop_in_progress ≡ false
          → push e debug p s ≡ write_next_message e debug queued
      goes k l = ground arith

      go :
          (m : LoggingMode) (b : Bool)
          → s.logging_mode ≡ m
          → s.stop_in_progress ≡ b
          → Gives s (if takes_calls s then p ∷ [] else []) (push e debug p s).0
      go no_logging b k l = inl (ground (arith, append-nil s.queue))
      go logging_to_server true k l = inl (ground (arith, append-nil s.queue))
      go logging_to_server false k l =
          rw (takes k l, goes k l)
            (Gives-shift s (p ∷ []) (write_next_message e debug queued).0
              (next-Gives queued queued.queue refl))

  -- The queue is first in, first out: an event adds what it accepts behind the others and takes at
  -- most the first package, which is then the current message if it can be packed.
  pub step-Gives : (v : Event) (s : Client) → Gives s (accepted v s) (step e debug v s).0
  unfolding step push begin_stop close_log_file write_handler
  step-Gives (pushed p) s = push-Gives p s
  step-Gives (stopping now channel) s =
      push-Gives (control_package stop_command now channel [] []) s
  step-Gives (written n) s =
      elim (Bool-cases (ltb (s.transferred + n) (length s.current_message))) [
        | inl more ↦ rw more (inl (sym (append-nil s.queue)))
        | inr done ↦ rw done (
            next-Gives (record s { transferred = s.transferred + n; write_in_progress = false })
              s.queue refl)
      ]
  step-Gives (write_failed n) s = inl (sym (append-nil s.queue))

  no_logging_keeps :
      (vs : List Event) (s : Client)
      → AllCalls vs
      → s.logging_mode ≡ no_logging
      → (run e debug vs s).queue ≡ s.queue
  unfolding run step push begin_stop close_log_file
  no_logging_keeps [] s h k = refl
  no_logging_keeps (pushed p ∷ vs) s h k =
      no_logging_keeps vs (step e debug (pushed p) s).0 h.1 (ground arith) ∙ ground arith
  no_logging_keeps (stopping now channel ∷ vs) s h k =
      no_logging_keeps vs (step e debug (stopping now channel) s).0 h.1 (ground arith)
      ∙ ground arith
  no_logging_keeps (written n ∷ vs) s h k = absurd h.0
  no_logging_keeps (write_failed n ∷ vs) s h k = absurd h.0

  -- After a failed write, calls of Push and Stop leave the queue as it is.
  pub queue-write_failed :
      (n : ℕ) (vs : List Event) (s : Client)
      → AllCalls vs
      → (run e debug (write_failed n ∷ vs) s).queue ≡ s.queue
  unfolding run step
  queue-write_failed n vs s h = no_logging_keeps vs (record s { logging_mode = no_logging }) h refl
