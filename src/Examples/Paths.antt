-- ===== src/Examples/Paths.antt =====
-- From the client to the records of the server.
use mathlib.Core.Path.{subst}
use proxy_channels.Base.{
  Bytes, Option, none, ◌==◌, ℕ, ◌+◌, ◌≡◌, refl, sym, ap, ◌∙◌, List, [], ◌∷◌, ◌++◌, true, false,
  some, ok, length, arith, ltb, if◌then◌else◌,
}
use proxy_channels.Base.Int.{pos}
use proxy_channels.Oscar.Endian.Swap.{little_endian_host}
use proxy_channels.Oscar.Memory.{Storage}
use proxy_channels.Utils.LogBuilder.{LogPackage, logging_to_server, stop_command, debug}
use proxy_channels.LogClient.{
  Client, Event, pushed, written, step, run, write_handler, control_package, begin_stop,
}
use proxy_channels.LogClient.Wire.{ArePackable, IsPossible, packets, unsent, packed_state}
use proxy_channels.LogClient.Wire.Outstanding.{
  ArePossible, idle_wired, wire, wired_step, sent, to_send, InStep, step-to_send,
}
use proxy_channels.LogClient.Session.{
  Session, Settings, fresh, Attempt, connects, fails, construct, after_attempt, EndsAt,
  construct-EndsAt, finish_stop, close_session,
}
use proxy_channels.LogClient.Stopping.{push-packed, finish_stop-unsent}
use proxy_channels.Proxy.OscarAdaptor.EndToEnd.{IsSendable, pack-sent}
use proxy_channels.Proxy.LogChannel.{LogChannel}
use proxy_channels.System.Records.{log_in, AreRecorded, log_in-wire}
use proxy_channels.Examples.Packets.{package_of_log, package_of_log-IsSendable}
use proxy_channels.Examples.Connections.{reader}

abbrev ready : Client
ready = record fresh { logging_mode = logging_to_server }

abbrev packable : ArePackable little_endian_host false (package_of_log ∷ [])
packable = (
  λ num. (_, pack-sent little_endian_host false package_of_log package_of_log-IsSendable num),
  tt,
)

abbrev packet_bytes : Storage
packet_bytes = (packable.0 0).0

abbrev sending : Client
sending =
    packed_state little_endian_host false (record ready { queue = package_of_log ∷ [] }) []
      package_of_log packet_bytes

pushed-sending : (step little_endian_host false (pushed package_of_log) ready).0 ≡ sending
unfolding step
pushed-sending =
    push-packed little_endian_host false package_of_log ready refl refl refl refl packable

whole : (n : ℕ) → ltb (0 + n) n ≡ false
whole n = ground arith

sent_all : (write_handler little_endian_host false false (length packet_bytes) sending).0.queue ≡ []
unfolding write_handler packed_state
sent_all = rw (whole (length packet_bytes)) refl

no_write :
    (write_handler little_endian_host false false (length packet_bytes) sending).0.write_in_progress
    ≡ false
unfolding write_handler packed_state
no_write = rw (whole (length packet_bytes)) refl

abbrev one_package : List Event
one_package = pushed package_of_log ∷ written (length packet_bytes) ∷ []

ran :
    run little_endian_host false one_package ready
    ≡ (write_handler little_endian_host false false (length packet_bytes) sending).0
unfolding run step
ran =
    ap (λ c. (write_handler little_endian_host false false (length packet_bytes) c).0)
      pushed-sending

sending-IsPossible : IsPossible little_endian_host false (written (length packet_bytes)) sending
unfolding packed_state
sending-IsPossible = (refl, omega arith)

possible : ArePossible little_endian_host false one_package ready
possible = (
  tt,
  (
    subst (IsPossible little_endian_host false (written (length packet_bytes))) (sym pushed-sending)
        sending-IsPossible,
    tt,
  ),
)

abbrev log_channels : List LogChannel
log_channels =
    record { channel = pos 1; filters = [] } ∷ record { channel = pos 2; filters = [] } ∷ []

abbrev erase_none : Bytes → Bytes → Option Bytes
erase_none text expression = none

log_in-wire_example :
    (after : List LogPackage) × ((log_in erase_none log_channels package_of_log little_endian_host 3
          7 0
          (wire little_endian_host false one_package (idle_wired ready))
          reader
          []
        ≡ ok after)
      × AreRecorded erase_none log_channels package_of_log (package_of_log ∷ []) [] after)
log_in-wire_example =
    log_in-wire erase_none log_channels package_of_log little_endian_host false one_package ready
      reader 3 7 0 [] refl refl possible (package_of_log-IsSendable, tt)
      (ap (λ c. c.queue) ran ∙ sent_all) (ap (λ c. c.write_in_progress) ran ∙ no_write)
      (record { no_header = refl; room = refl }) (omega arith) (omega arith) (refl, (refl, tt)) tt

step-to_send_example :
    let w = wired_step little_endian_host false (pushed package_of_log) (idle_wired ready) in
    (sent (pushed package_of_log) (idle_wired ready) ++ to_send little_endian_host false w []
      ≡ to_send little_endian_host false (idle_wired ready) (package_of_log ∷ []))
    × InStep little_endian_host false w
step-to_send_example =
    step-to_send little_endian_host false (pushed package_of_log) (idle_wired ready) [] refl tt
      packable

abbrev session : Session
session = record { client = ready; socket_open = true; running = true }

abbrev stop_record : LogPackage
stop_record =
    control_package stop_command (record { tv_sec = pos 1700000000; tv_nsec = pos 5 }) (pos 3) [] []

stop_record-IsSendable : IsSendable stop_record
stop_record-IsSendable = record {
  texts = omega arith;
  severity = omega arith;
  channel = omega arith;
  sec = omega arith;
  nsec = omega arith;
}

finish_stop-unsent_example :
    let stopped = record session {
      client = (begin_stop little_endian_host false stop_record.timestamp (pos 3) ready).0;
    } in
    (finish_stop stopped ≡ some (close_session stopped))
    × (unsent little_endian_host false (close_session stopped).client []
        ≡ packets little_endian_host false 0 (stop_record ∷ []))
finish_stop-unsent_example =
    finish_stop-unsent little_endian_host false stop_record.timestamp (pos 3) session refl refl refl
      refl
      ((λ num. (_, pack-sent little_endian_host false stop_record stop_record-IsSendable num)), tt)

abbrev config : Settings
config = record {
  host = [];
  port = 2003;
  threshold_severity = debug;
  tag_size = 3;
  max_message_size = 4096;
  retry_count = 3;
}

-- The first attempt fails and leaves the socket open, the second connects.
abbrev attempts : ℕ → Attempt
attempts n = if n == 2 then connects else fails true

construct-EndsAt_example :
    (n : ℕ) × (EndsAt attempts 3 (omega arith) n
      × (construct little_endian_host false stop_record.timestamp (pos 0) 3 attempts config
          ≡ ok (after_attempt little_endian_host false stop_record.timestamp (pos 0) (attempts n))))
construct-EndsAt_example =
    construct-EndsAt attempts 3 (omega arith) little_endian_host false stop_record.timestamp (pos 0)
      config 3 refl (omega arith) (omega arith)
