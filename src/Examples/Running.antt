-- ===== src/Examples/Running.antt =====
-- The logger, the console, the manager and the connections at work.
use mathlib.Core.List.{Perm}
use mathlib.Core.List.Memᴰ
use proxy_channels.Base.{
  ◌^◌, ◌-◌, ◌≡◌, refl, ap, inl, inr, List, [], ◌∷◌, ◌++◌, Bytes, codes, Bool, true, false, arith,
  some, none, ok, length, replicate,
}
use proxy_channels.Base.Int.{ℤ, pos, rem, ◌+ℤ◌, scale, quot, to_signed, to_word}
use proxy_channels.Utils.Timestamp.{Timespec, timespec_lt, timestamp_adjust, signed, carry}
use proxy_channels.Utils.Timestamp.Text.{Tm, timestamp_str, read_time, read_time-timestamp_str}
use proxy_channels.Utils.LogBuilder.{LogPackage}
use proxy_channels.Proxy.Sink.{increment_job_counter}
use proxy_channels.Proxy.Logger
use proxy_channels.Proxy.Logger.{
  push, split_upper, package_lt, has_channel, SinkEntry, WorkUnit, take_due, may_hand_over, insert,
}
use proxy_channels.Proxy.Logger.Running.{
  Logging, idle, queue_is_empty, logs, ticks, passes, hands_over, starts, unlocks, Reach,
}
use proxy_channels.Proxy.Logger.Running.Conservation.{Inv, Reach-Inv}
use proxy_channels.Proxy.Logger.Running.Delivered.{AllDelivered, queue_is_empty-AllDelivered}
use proxy_channels.Proxy.Logger.Running.Exclusive.{
  AreDistinct, AreExclusive, AloneReach, AloneReach-AreExclusive, reach_of,
}
use proxy_channels.Proxy.Logger.Running.Timely.{IsTimely}
use proxy_channels.Proxy.Console.{Console, joined}
use proxy_channels.Proxy.Console
use proxy_channels.Proxy.Console.Lines.{run-joined}
use proxy_channels.Proxy.StreamLogger.{find_newline}
use proxy_channels.Proxy.StreamLogger.Text.{lines, rest_of}
use proxy_channels.Proxy.Actor.{tcp_server, logger_adaptor, oscar}
use proxy_channels.Proxy.Manager.{input_messages}
use proxy_channels.Proxy.Manager.Registry.{copies, destinations}
use proxy_channels.Proxy.Manager.Life.{
  Process, Configuration, Manager, started, initialise, stops, run-input_messages,
}
use proxy_channels.Proxy.Manager.Life
use proxy_channels.Proxy.TcpChild.{read_handler, read_exact}
use proxy_channels.Proxy.TcpChild.Underflow.{on_read-surplus}
use proxy_channels.Proxy.TcpChild.Readers.EtfLog.{on_read}
use proxy_channels.Examples.Connections.{reader}
use proxy_channels.Examples.Packets.{package_of_log}

abbrev pub record_of_log : LogPackage
record_of_log = record package_of_log { lchannel = pos 3 }

-- Two sinks of one channel, as in the configuration that the program comes with.
abbrev pub first_sink : SinkEntry
first_sink = record { place = 0; channel = pos 3 }

abbrev pub second_sink : SinkEntry
second_sink = record { place = 1; channel = pos 3 }

abbrev pub sinks : List SinkEntry
sinks = first_sink ∷ second_sink ∷ []

pub two_places : AreDistinct sinks
two_places = (
  (λ d m. elim (Memᴰ.cases_cons m) [
    | inl e ↦ λ q. omega (arith, q, ap (λ x. x.place) e)
    | inr n ↦ elim n [ ]
  ]),
  ((λ d m. elim m [ ]), tt),
)

abbrev pub logged : Logging
logged = record idle {
  records = push package_of_log record_of_log [];
  inserted = record_of_log ∷ [];
}

abbrev pub checked : Logging
checked = record logged { passed = 1 }

pub checks : may_hand_over (push package_of_log record_of_log []) 0 ≡ true
unfolding may_hand_over push insert
checks = refl

-- The seconds of the time at which the multiplexer takes the record.
abbrev pub late : Timespec
late = record { tv_sec = pos 1700000009; tv_nsec = pos 0 }

pub one_due : (record_of_log ∷ [], []) ≡ take_due record_of_log late logged.records
unfolding push insert split_upper package_lt timespec_lt timestamp_adjust signed carry rem ◌+ℤ◌
    scale quot to_signed to_word
one_due = refl

abbrev pub taken_out : Logging
taken_out = record checked {
  passed = 0;
  locked = true;
  to_start = sinks;
  out = record_of_log ∷ [];
  records = [];
  handed = record_of_log ∷ [];
}

abbrev pub unit : SinkEntry → WorkUnit
unit k = record { sink = k; records = record_of_log ∷ [] }

abbrev pub first_started : Logging
first_started = record taken_out {
  to_start = second_sink ∷ [];
  job_counter = increment_job_counter 0;
  writing = unit first_sink ∷ [];
}

-- The logger has given the record to both sinks.
abbrev pub handed_over : Logging
handed_over = record first_started {
  to_start = [];
  job_counter = increment_job_counter (increment_job_counter 0);
  writing = unit first_sink ∷ unit second_sink ∷ [];
  locked = false;
  out = [];
}

pub own_channel : has_channel (pos 3) (record_of_log ∷ []) ≡ true
unfolding has_channel
own_channel = refl

pub handed_over-AloneReach : AloneReach sinks handed_over
unfolding Logger.is_empty
handed_over-AloneReach =
    let r1 = AloneReach.later AloneReach.start (logs package_of_log record_of_log refl) tt in
    let r2 = AloneReach.later r1 ticks tt in
    let r3 = AloneReach.later r2 (passes refl checks) (refl, refl) in
    let r4 =
      AloneReach.later r3 (hands_over record_of_log late (record_of_log ∷ [], []) refl refl one_due)
        tt in
    let r5 = AloneReach.later r4 (starts first_sink (second_sink ∷ []) refl own_channel) tt in
    let r6 = AloneReach.later r5 (starts second_sink [] refl own_channel) tt in
    AloneReach.later r6 (unlocks refl refl) tt

pub handed_over-Reach : Reach sinks handed_over
handed_over-Reach = reach_of sinks handed_over-AloneReach

Reach-Inv_example : Inv sinks handed_over
Reach-Inv_example = Reach-Inv sinks handed_over-Reach

pub handed_over-IsTimely : IsTimely sinks (reach_of sinks handed_over-AloneReach)
unfolding handed_over-AloneReach
handed_over-IsTimely = (tt, tt)

AloneReach-AreExclusive_example : AreExclusive handed_over.writing
AloneReach-AreExclusive_example =
    AloneReach-AreExclusive sinks two_places (omega arith) handed_over-AloneReach

all_handed_over : queue_is_empty handed_over ≡ true
unfolding queue_is_empty Logger.is_empty
all_handed_over = refl

queue_is_empty-AllDelivered_example :
    Perm handed_over.handed handed_over.inserted × AllDelivered sinks handed_over
queue_is_empty-AllDelivered_example =
    queue_is_empty-AllDelivered sinks handed_over-Reach all_handed_over

abbrev noon : ℤ → Tm
noon sec = record { tm_hour = 12; tm_min = 0; tm_sec = 9 }

read_time-timestamp_str_example :
    let tv : Timespec = record { tv_sec = pos 1700000009; tv_nsec = pos 4500 } in
    (length (timestamp_str noon tv) ≡ 15)
    × (read_time (timestamp_str noon tv) ≡ (noon (pos 1700000009), 4500))
read_time-timestamp_str_example =
    read_time-timestamp_str noon (record { tv_sec = pos 1700000009; tv_nsec = pos 4500 }) 4500 refl
      (omega arith) (record { hour = omega arith; min = omega arith; sec = omega arith })

abbrev console : Console
console = record { in_buffer = codes "qu"; is_open = true }

no_newline : find_newline (codes "qu") ≡ none
unfolding find_newline
no_newline = refl

abbrev typed : List Bytes
typed = codes "it" ∷ (10 ∷ codes "he") ∷ []

run-joined_example :
    ((Console.run typed console).0 ≡ lines (codes "qu" ++ joined typed))
    × ((Console.run typed console).1.in_buffer ≡ rest_of (codes "qu" ++ joined typed))
unfolding Console.arrive Console.serve Console.read_handler Console.read_bytes Console.start
    find_newline
run-joined_example = run-joined typed console no_newline (omega arith, (omega arith, tt))

abbrev nothing_yet : Process
nothing_yet = record { manager = none; logger_started = false; stopped_actors = [] }

abbrev configuration : Configuration
configuration = record {
  actor_confs =
      record {
        is_actor = true;
        name = tcp_server;
        protocol = oscar;
        id = codes "in";
        throws = false;
      }
      ∷ record {
        is_actor = true;
        name = logger_adaptor;
        protocol = oscar;
        id = codes "log";
        throws = false;
      }
      ∷ [];
  channel_confs =
      record {
        is_channel = true;
        channel_id = some (codes "b");
        source = some (codes "in");
        destination = some (codes "port");
      }
      ∷ record {
        is_channel = true;
        channel_id = some (codes "a");
        source = some (codes "in");
        destination = some (codes "log");
      }
      ∷ [];
}

abbrev all_set_up : Bytes → Bool
all_set_up id = true

run-input_messages_example :
    let m = started configuration in
    input_messages all_set_up m.actors (codes "in") (13 ∷ 10 ∷ []) m.channels
    ≡ copies all_set_up m.actors 0 (13 ∷ 10 ∷ []) (destinations (codes "in") m.channels)
unfolding Life.run Life.step Life.init
run-input_messages_example =
    run-input_messages all_set_up (initialise configuration ∷ []) nothing_yet
      (started configuration) (codes "in") (13 ∷ 10 ∷ []) refl refl

on_read-surplus_example :
    on_read false 20 (record reader { in_buffer = 76 ∷ replicate 19 0; header_read_bytes = 0 })
    ≡ ok (
      record reader { in_buffer = 76 ∷ replicate 19 0; header_read_bytes = 20 },
      read_exact read_handler 20 (2 ^ 64 - 8) ∷ [],
    )
on_read-surplus_example = on_read-surplus 20 (replicate 19 0) reader (omega arith) (omega arith)
