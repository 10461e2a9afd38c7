-- ===== src/LogClient.antt =====
-- logclient/logclient.cpp: the client that sends log packages to a server. A call returns the new
-- state and what it asks of the outside; the lock makes each call one step.
pub mod Instance
pub mod Order
pub mod Wire
pub mod Session
pub mod Stopping
use proxy_channels.Base.{
  ℕ, ◌+◌, ◌<◌, List, [], ◌∷◌, Bytes, Bool, true, false, ltb, if◌then◌else◌, Option, none, some,
  Result, Error, ok, err, length,
}
use proxy_channels.Base.Int.{ℤ, to_word}
use proxy_channels.Oscar.Endian.{Endian}
use proxy_channels.Oscar.Memory.{Storage}
use proxy_channels.Oscar.Proto.{
  FlapChannel, SnacTraits, TlvData, snac_message, snac_new_file, snac_stop,
}
use proxy_channels.Oscar.Flap.{make_flap_package}
use proxy_channels.Utils.Timestamp.{Timespec}
use proxy_channels.Utils.LogBuilder.{
  LogPackage, LoggingMode, logging_to_server, no_logging, LogCommand, message_command, change_file,
  stop_command,
}
use proxy_channels.Utils.LockQueue

-- The channel and the shape of the packet for each command.
abbrev pub flap_channel : LogCommand → FlapChannel
flap_channel message_command = FlapChannel.message
flap_channel change_file = FlapChannel.control
flap_channel stop_command = FlapChannel.control

abbrev pub traits : LogCommand → SnacTraits
traits message_command = snac_message
traits change_file = snac_new_file
traits stop_command = snac_stop

abbrev pub fields : (c : LogCommand) → LogPackage → TlvData (traits c).tlvs
fields message_command p = (
  p.tag,
  (
    p.severity,
    (
      p.message,
      (to_word 8 p.lchannel, (to_word 64 p.timestamp.tv_sec, (to_word 64 p.timestamp.tv_nsec, tt))),
    ),
  ),
)
fields change_file p = (
  p.message,
  (
    p.tag,
    (to_word 8 p.lchannel, (to_word 64 p.timestamp.tv_sec, (to_word 64 p.timestamp.tv_nsec, tt))),
  ),
)
fields stop_command p =
    (to_word 8 p.lchannel, (to_word 64 p.timestamp.tv_sec, (to_word 64 p.timestamp.tv_nsec, tt)))

module _ (e : Endian) (debug : Bool) where
  -- The switch of `WriteNextMessage`.
  unfoldable pub pack : LogPackage → ℕ → Result Storage × ℕ
  pack p num =
      make_flap_package e debug (flap_channel p.command) (traits p.command) (fields p.command p) num

abbrev pub control_package : LogCommand → Timespec → ℤ → Bytes → Bytes → LogPackage
control_package c now channel message tag = record {
  message = message;
  tag = tag;
  timestamp = now;
  command = c;
  severity = 0;
  lchannel = channel;
}

pub record Client : Type 0 where
  pub queue : List LogPackage
  pub write_in_progress : Bool
  pub stop_in_progress : Bool
  pub logging_mode : LoggingMode
  pub current_message : Storage
  pub transferred : ℕ
  -- the counter behind the request ids
  pub next_request : ℕ

-- What a call does to the outside.
pub data Action : Type 0 where
  -- async_write of the current message from an offset on
  write_from : ℕ → Action
  -- a line on the console
  print : LogPackage → Action
  -- an exception leaves the call
  throw : Error → Action

abbrev pub Call : Type 0
Call = Client × List Action

module _ (e : Endian) (debug : Bool) where
  -- The package has left the queue; an exception leaves the flag of the write set.
  unfoldable pub start_write : Client → LogPackage → Call
  start_write s p =
      let (packed, num) = pack e debug p s.next_request in
      elim packed [
        | ok stg ↦ (
          record s {
            write_in_progress = true;
            current_message = stg;
            transferred = 0;
            next_request = num;
          },
          write_from 0 ∷ [],
        )
        | err x ↦ (record s { write_in_progress = true; next_request = num }, throw x ∷ [])
      ]

  unfoldable pub write_popped : Client → Option LogPackage × List LogPackage → Call
  unfolding start_write
  write_popped s (none, q) = (record s { queue = q }, [])
  write_popped s (some p, q) = start_write (record s { queue = q }) p

  unfoldable pub write_next_message : Client → Call
  unfolding write_popped LockQueue.pop_try
  write_next_message s =
      if s.write_in_progress then (s, []) else write_popped s (LockQueue.pop_try [] s.queue)

  unfoldable pub push : LogPackage → Client → Call
  unfolding write_next_message LockQueue.push
  push p s = elim s.logging_mode [
    | logging_to_server ↦
        if s.stop_in_progress
        then (s, [])
        else write_next_message (record s { queue = LockQueue.push s.queue p })
    | no_logging ↦ (s, print p ∷ [])
  ]

  -- `failed` is the error code of the completed write.
  unfoldable pub write_handler : Bool → ℕ → Client → Call
  unfolding write_next_message
  write_handler true bytes s = (record s { logging_mode = no_logging }, [])
  write_handler false bytes s =
      let sent = s.transferred + bytes in
      if ltb sent (length s.current_message)
      then (record s { transferred = sent }, write_from sent ∷ [])
      else write_next_message (record s { transferred = sent; write_in_progress = false })

  unfoldable pub close_log_file : Timespec → ℤ → Client → Call
  unfolding push
  close_log_file now channel s = push (control_package stop_command now channel [] []) s

  unfoldable pub open_new_log_file : Bytes → Bytes → Timespec → ℤ → Client → Call
  unfolding push
  open_new_log_file prefix suffix now channel s =
      push (control_package change_file now channel prefix suffix) s

  -- `Stop` up to its wait for an empty queue.
  unfoldable pub begin_stop : Timespec → ℤ → Client → Call
  unfolding close_log_file
  begin_stop now channel s =
      let (s', actions) = close_log_file now channel s in
      (record s' { stop_in_progress = true }, actions)

-- What happens to a client: calls of the program and the end of a write.
pub data Event : Type 0 where
  pushed : LogPackage → Event
  stopping : Timespec → ℤ → Event
  written : ℕ → Event
  write_failed : ℕ → Event

module _ (e : Endian) (debug : Bool) where
  unfoldable pub step : Event → Client → Call
  unfolding push begin_stop write_handler
  step (pushed p) s = push e debug p s
  step (stopping now channel) s = begin_stop e debug now channel s
  step (written bytes) s = write_handler e debug false bytes s
  step (write_failed bytes) s = write_handler e debug true bytes s

  unfoldable pub run : List Event → Client → Client
  run [] s = s
  run (v ∷ vs) s = run vs (step v s).0
