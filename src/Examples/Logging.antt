-- ===== src/Examples/Logging.antt =====
-- The client, the logger, the sinks and the adaptors.
use proxy_channels.Base.{ℕ, ◌≡◌, refl, List, [], ◌∷◌, ◌++◌, Bytes, codes, true, false, none, arith}
use proxy_channels.Base.Int.{pos, negsuc, scale, ◌+ℤ◌}
use proxy_channels.Oscar.Endian.Swap.{little_endian_host}
use proxy_channels.Utils.Timestamp.{Timespec, timespec_lt}
use proxy_channels.Utils.Timestamp.Adjust.{micros, adjusted, micros-timestamp_adjust}
use proxy_channels.Utils.LogBuilder.{
  LogPackage, message_command, stop_command, logging_to_server, debug,
}
use proxy_channels.LogClient.{Client, pushed, written, step, run, write_failed}
use proxy_channels.LogClient.Order.{Gives, accepted, step-Gives, queue-write_failed}
use proxy_channels.Proxy.StreamLogger.{Work, find_newline}
use proxy_channels.Proxy.StreamLogger.Lines
use proxy_channels.Proxy.StreamLogger.Lines.{messages, texts, bytes, run-lines}
use proxy_channels.Proxy.StreamLogger.Text.{lines, rest_of}
use proxy_channels.Proxy.Logger.{package_lt}
use proxy_channels.Proxy.Logger.Delivery.{IsSorted}
use proxy_channels.Proxy.Sink.{
  FileSink, Format, Run, write_record, write, write_records, write_message, open_stream,
}
use proxy_channels.Proxy.Sink.Batches.{KeepsOpen, opened, write-skipped}

abbrev at_second : ℕ → Timespec
at_second n = record { tv_sec = pos n; tv_nsec = pos 0 }

abbrev log_at : ℕ → LogPackage
log_at n = record {
  message = codes "hello";
  tag = codes "MAIN";
  timestamp = at_second n;
  command = message_command;
  severity = 2;
  lchannel = pos 3;
}

abbrev client : Client
client = record {
  queue = log_at 1 ∷ [];
  write_in_progress = true;
  stop_in_progress = false;
  logging_mode = logging_to_server;
  current_message = 1 ∷ 2 ∷ [];
  transferred = 0;
  next_request = 5;
}

step-Gives_example :
    Gives little_endian_host false client
      (accepted (written 2) client)
      (step little_endian_host false (written 2) client).0
step-Gives_example = step-Gives little_endian_host false (written 2) client

queue-write_failed_example :
    (run little_endian_host false (write_failed 0 ∷ pushed (log_at 2) ∷ []) client).queue
    ≡ log_at 1 ∷ []
queue-write_failed_example =
    queue-write_failed little_endian_host false 0 (pushed (log_at 2) ∷ []) client (tt, tt)

abbrev work : Work
work = record { buffer = codes "be"; timestamp = at_second 1 }

no_line : find_newline (codes "be") ≡ none
unfolding find_newline
no_line = refl

abbrev keep : Bytes → Bytes
keep s = s

abbrev chunks : List (Timespec × Bytes)
chunks = (at_second 2, codes "gun") ∷ (at_second 3, 10 ∷ codes "rest") ∷ []

run-lines_example :
    (messages keep (log_at 0) (Lines.run keep (log_at 0) chunks work).0
      ≡ texts keep (log_at 0) (lines (codes "be" ++ bytes keep (log_at 0) chunks)))
    × ((Lines.run keep (log_at 0) chunks work).1.buffer
        ≡ rest_of (codes "be" ++ bytes keep (log_at 0) chunks))
run-lines_example = run-lines keep (log_at 0) chunks work no_line

abbrev in_order : List LogPackage
in_order = log_at 1 ∷ log_at 5 ∷ []

earlier : package_lt (log_at 5) (log_at 1) ≡ false
unfolding package_lt timespec_lt
earlier = refl

in_order-IsSorted : IsSorted in_order
in_order-IsSorted = ((earlier, tt), (tt, tt))

abbrev pub format : Format
format = record {
  timestamp_str = λ t. [];
  to_string = λ z. codes "3";
  clock = at_second;
  strftime = λ template t. template;
  stem = keep;
  extension = keep;
  stoi = λ s. pos 0;
  to_lower = keep;
  to_upper = keep;
}

abbrev pub sink : FileSink
sink = record {
  severity = debug;
  channel = pos 3;
  open_file = none;
  file_name_template = codes "log";
  prefix = [];
  suffix = [];
  file_name = codes "log_3";
  clock_reads = 1;
  is_open_by_demand = false;
}

abbrev pub at_start : Run
at_start = record { sink = sink; lines = []; notes = [] }

abbrev stop_at : ℕ → LogPackage
stop_at n = record (log_at n) { command = stop_command }

first_keeps : KeepsOpen format (log_at 1 ∷ []) (opened format at_start)
unfolding write_record write_message open_stream
first_keeps = (refl, tt)

-- The record at the fifth second is not written.
write-skipped_example :
    let s = write format (log_at 1 ∷ []) at_start in
    write format (log_at 1 ∷ stop_at 2 ∷ log_at 5 ∷ []) at_start
    ≡ record s { sink = record s.sink { file_name = [] } }
unfolding write_records write_record write_message open_stream
write-skipped_example =
    write-skipped format (log_at 1 ∷ []) (log_at 5 ∷ []) (stop_at 2) at_start first_keeps refl refl
      refl

micros-timestamp_adjust_example :
    micros (adjusted (pos 10) (pos 5) (negsuc 2499))
    ≡ scale (pos 10) 1000000 +ℤ pos 5 +ℤ negsuc 2499
micros-timestamp_adjust_example =
    micros-timestamp_adjust (pos 10) (pos 5) (negsuc 2499) (omega arith, omega arith)
      (omega arith, omega arith) (omega arith, omega arith)
