-- ===== src/Proxy/Sink.antt =====
-- proxy/sink.cpp: the sinks of the logger, the file sink with all that it keeps. `std::ofstream`
-- opens, as on a disk with room. What a run writes is a list of files and lines, in its order.
pub mod Batches
pub mod OwnChannel
pub mod Text
pub mod Making
use proxy_channels.Base.{
  ℕ, zero, suc, ◌+◌, ◌-◌, ◌%◌, ◌^◌, List, [], ◌∷◌, ◌++◌, Bytes, codes, bytes_eq, Bool, true, false,
  not, ◌&&◌, ◌||◌, if◌then◌else◌, Option, none, some, length, ◌==◌,
}
use proxy_channels.Base.Int.{ℤ, pos, negsuc, ltb_ℤ, eqb_ℤ, to_signed, to_word}
use proxy_channels.Utils.Timestamp.{Timespec}
use proxy_channels.Utils.LogBuilder.{
  Severity, severity_id, LogPackage, LogCommand, message_command, change_file, stop_command,
  log_internal_channel, severity_to_string, string_to_severity,
}

-- m_jobCounter, an unsigned 64-bit counter
unfoldable pub increment_job_counter : ℕ → ℕ
increment_job_counter n = (n + 1) % 2 ^ 64

unfoldable pub decrement_job_counter : ℕ → ℕ
decrement_job_counter n = (n + 2 ^ 64 - 1) % 2 ^ 64

-- The counter as it stands when the time is over or the wait is notified.
unfoldable pub wait_job_finish_all_sinks : ℕ → Bool
wait_job_finish_all_sinks counter = counter == 0

pub record FileSink : Type 0 where
  pub severity : Severity
  pub channel : ℤ
  pub open_file : Option Bytes
  pub file_name_template : Bytes
  pub prefix : Bytes
  pub suffix : Bytes
  pub file_name : Bytes
  -- how often it has read the clock
  pub clock_reads : ℕ
  pub is_open_by_demand : Bool

-- What the sink logs itself.
pub data Note : Type 0 where
  created_filename : Bytes → Note
  close_refused change_refused : ℤ → Note

-- A sink, the lines that went to files and the notes, the last in front.
pub record Run : Type 0 where
  pub sink : FileSink
  pub lines : List (Bytes × Bytes)
  pub notes : List Note

unfoldable pub is_empty : Bytes → Bool
is_empty [] = true
is_empty (c ∷ s) = false

unfoldable pub open_stream : FileSink → FileSink
unfolding is_empty
open_stream s = elim s.open_file [
  | none ↦ if is_empty s.file_name then s else record s { open_file = some s.file_name }
  | some f ↦ s
]

unfoldable pub close_stream : FileSink → FileSink
close_stream s = record s { open_file = none }

-- TS::GetTimestampStr and std::to_string; what TS::GetTimestamp gives a sink at its n-th reading of
-- the clock; strftime of a template at a time into 100 bytes, with nothing if these are too few; the
-- stem and the extension of a path; std::stoi and the letters' case.
pub record Format : Type 0 where
  pub timestamp_str : Timespec → Bytes
  pub to_string : ℤ → Bytes
  pub clock : ℕ → Timespec
  pub strftime : Bytes → Timespec → Bytes
  pub stem : Bytes → Bytes
  pub extension : Bytes → Bytes
  pub stoi : Bytes → ℤ
  pub to_lower : Bytes → Bytes
  pub to_upper : Bytes → Bytes

module _ (fm : Format) where
  unfoldable pub sink_set_property : Bytes → Bytes → FileSink → FileSink
  unfolding string_to_severity
  sink_set_property name value s =
      if bytes_eq name (codes "severity")
      then record s { severity = string_to_severity fm.to_upper value }
      else if bytes_eq name (codes "channel")
      then record s { channel = to_signed 8 (to_word 8 (fm.stoi value)) }
      else s

  unfoldable pub set_property : Bytes → Bytes → FileSink → FileSink
  unfolding is_empty sink_set_property
  set_property name value s =
      if bytes_eq name (codes "prefix")
      then record s { prefix = value }
      else if bytes_eq name (codes "suffix")
      then record s { suffix = value }
      else if bytes_eq name (codes "template") && not (is_empty value)
      then record s { file_name_template = value }
      else if bytes_eq name (codes "open_by_demand") && bytes_eq (fm.to_lower value) (codes "true")
      then record s { is_open_by_demand = true }
      else sink_set_property name value s

  unfoldable pub create_file_name : FileSink → FileSink
  unfolding is_empty
  create_file_name s =
      let head = if is_empty s.prefix then [] else s.prefix ++ codes "_" in
      let tail = if is_empty s.suffix then [] else codes "_" ++ s.suffix in
      let path = fm.strftime s.file_name_template (fm.clock s.clock_reads) in
      record s {
        clock_reads = suc s.clock_reads;
        file_name =
            head
            ++ fm.stem path
            ++ codes "_"
            ++ fm.to_string s.channel
            ++ tail
            ++ fm.extension path;
      }

  unfoldable pub set_properties : List (Bytes × Bytes) → FileSink → FileSink
  set_properties [] s = s
  set_properties (p ∷ ps) s = set_properties ps (set_property p.0 p.1 s)

  -- The constructor, from the members as they are before.
  unfoldable pub make_file_sink : List (Bytes × Bytes) → FileSink → FileSink
  unfolding set_properties create_file_name
  make_file_sink props s0 =
      let s = set_properties props (record s0 { is_open_by_demand = false }) in
      if eqb_ℤ s.channel log_internal_channel || not s.is_open_by_demand
      then create_file_name s
      else s

  -- "[time][tag][severity] - message"
  unfoldable pub format_line : LogPackage → Bytes
  format_line p =
      codes "["
      ++ fm.timestamp_str p.timestamp
      ++ codes "]["
      ++ p.tag
      ++ codes "]["
      ++ severity_to_string p.severity
      ++ codes "] - "
      ++ p.message
      ++ 10 ∷ []

  unfoldable pub write_message : LogPackage → Run → Run
  unfolding format_line
  write_message p r = elim r.sink.open_file [
    | none ↦ r
    | some f ↦ record r { lines = (f, format_line p) ∷ r.lines }
  ]

  unfoldable pub change_file_name : LogPackage → Run → Run
  unfolding open_stream create_file_name close_stream
  change_file_name p r =
      let named =
        create_file_name (close_stream (record r.sink { prefix = p.message; suffix = p.tag })) in
      record r { sink = open_stream named; notes = created_filename named.file_name ∷ r.notes }

  -- A record of the channel of the sink, and whether the loop is left.
  unfoldable pub write_record : LogPackage → Run → Run × Bool
  unfolding write_message change_file_name
  write_record p r =
      let applicable = ltb_ℤ log_internal_channel r.sink.channel in
      elim p.command [
        | message_command ↦ (write_message p r, false)
        | stop_command ↦
            if applicable
            then (record r { sink = record r.sink { file_name = [] } }, true)
            else (record r { notes = close_refused r.sink.channel ∷ r.notes }, false)
        | change_file ↦
            if applicable
            then (change_file_name p r, false)
            else (record r { notes = change_refused r.sink.channel ∷ r.notes }, false)
      ]

  unfoldable pub write_records : List LogPackage → Run → Run
  write_records [] r = r
  write_records (p ∷ ps) r =
      let call = write_record p r in
      let rest = write_records ps call.0 in
      let skipped = write_records ps r in
      if eqb_ℤ p.lchannel r.sink.channel then if call.1 then call.0 else rest else skipped

  unfoldable pub write : List LogPackage → Run → Run
  unfolding open_stream close_stream
  write log_data r =
      let s = write_records log_data (record r { sink = open_stream r.sink }) in
      record s { sink = close_stream s.sink }

  -- The lines that the console shows.
  unfoldable pub console_write : List LogPackage → List Bytes
  console_write [] = []
  console_write (p ∷ ps) =
      let rest = console_write ps in
      elim p.command [
        | message_command ↦
            if eqb_ℤ p.lchannel log_internal_channel then format_line p ∷ rest else rest
        | _ ↦ rest
      ]
