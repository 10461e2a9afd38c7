-- ===== src/Examples/Files.antt =====
-- The logger and a file sink at work, up to the text of the file.
use mathlib.Core.List.{Perm}
use mathlib.Core.List.Memᴰ
use proxy_channels.Base.{◌≡◌, refl, [], ◌∷◌, ◌++◌, arith}
use proxy_channels.Base.Int.{pos, rem, ◌+ℤ◌, scale, quot, to_signed, to_word}
use proxy_channels.Utils.Timestamp.{timespec_lt, timestamp_adjust, signed, carry}
use proxy_channels.Proxy.Sink
use proxy_channels.Proxy.Sink.{decrement_job_counter, write}
use proxy_channels.Proxy.Sink.OwnChannel.{of_channel}
use proxy_channels.Proxy.Sink.Text.{file_text, format_lines}
use proxy_channels.Proxy.Logger
use proxy_channels.Proxy.Logger.{package_lt}
use proxy_channels.Proxy.Logger.Delivery.{IsSorted}
use proxy_channels.Proxy.Logger.Running.{Logging, Reach, queue_is_empty, ends}
use proxy_channels.Proxy.Logger.Running.Exclusive.{AloneReach, reach_of}
use proxy_channels.Proxy.Logger.Running.InOrder.{IsInOrder, AloneReach-IsInOrder}
use proxy_channels.Proxy.Logger.Running.Timely.{IsTimely, Reach-IsSorted}
use proxy_channels.System.Files.{run_units, run_units-write, run_units-file_text}
use proxy_channels.Examples.Logging.{format, at_start}
use proxy_channels.Examples.Packets.{package_of_log}
use proxy_channels.Proxy.Logger.Running.Overlap.{IsDue, Reach-overlap}
use proxy_channels.Examples.Running.{
  record_of_log, late, first_sink, second_sink, sinks, two_places, unit, handed_over,
  handed_over-AloneReach, handed_over-IsTimely,
}

abbrev finished : Logging
finished = record handed_over {
  writing = [];
  job_counter = decrement_job_counter (decrement_job_counter handed_over.job_counter);
  ended = unit first_sink ∷ unit second_sink ∷ [];
}

finished-AloneReach : AloneReach sinks finished
finished-AloneReach =
    AloneReach.later
      (AloneReach.later handed_over-AloneReach
        (ends [] (unit second_sink ∷ []) (unit first_sink) refl) tt)
      (ends [] [] (unit second_sink) refl) tt

finished-IsTimely : IsTimely sinks (reach_of sinks finished-AloneReach)
unfolding finished-AloneReach
finished-IsTimely = handed_over-IsTimely

AloneReach-IsInOrder_example : IsInOrder sinks first_sink finished
AloneReach-IsInOrder_example =
    AloneReach-IsInOrder sinks two_places (omega arith) first_sink (Memᴰ.head refl)
      finished-AloneReach

Reach-IsSorted_example : IsSorted finished.handed
Reach-IsSorted_example = Reach-IsSorted sinks (reach_of sinks finished-AloneReach) finished-IsTimely

run_units-write_example :
    run_units format first_sink finished.ended at_start
    ≡ write format (of_channel (pos 3) finished.handed) at_start
run_units-write_example =
    run_units-write format sinks two_places (omega arith) first_sink (Memᴰ.head refl)
      finished-AloneReach at_start refl refl refl refl ((λ e. cc), tt)

run_units-file_text_example :
    Perm finished.handed finished.inserted
    × IsSorted finished.handed
    × (file_text at_start.sink.file_name (run_units format first_sink finished.ended at_start).lines
        ≡ file_text at_start.sink.file_name at_start.lines
          ++ format_lines format (of_channel (pos 3) finished.handed))
unfolding queue_is_empty Sink.is_empty Logger.is_empty
run_units-file_text_example =
    run_units-file_text format sinks two_places (omega arith) first_sink (Memᴰ.head refl)
      finished-AloneReach at_start finished-IsTimely refl refl refl refl refl (refl, tt)

record_of_log-IsDue : IsDue first_sink record_of_log late package_of_log record_of_log
unfolding package_lt timespec_lt timestamp_adjust signed carry rem ◌+ℤ◌ scale quot to_signed to_word
record_of_log-IsDue = record { own = refl; known = refl; early = refl }

Reach-overlap_example :
    (s : Logging) × (Reach (first_sink ∷ []) s
      × (s.writing ≡ unit first_sink ∷ unit first_sink ∷ []))
Reach-overlap_example =
    Reach-overlap first_sink record_of_log late package_of_log record_of_log record_of_log
      record_of_log-IsDue record_of_log-IsDue
