-- ===== src/Proxy/Logger.antt =====
-- proxy/logger.cpp: the logger. Its records are a multiset in the order of their time stamps, as
-- std::multiset keeps it: an equal element is inserted behind.
pub mod Delivery
pub mod Instance
pub mod Running
pub mod Ticking
use proxy_channels.Base.{
  ℕ, ◌-◌, List, [], ◌∷◌, ◌++◌, Bytes, Bool, true, false, ◌&&◌, not, any, if◌then◌else◌, Option,
  none, some,
}
use proxy_channels.Base.Int.{ℤ, pos, negsuc, eqb_ℤ}
use proxy_channels.Utils.Timestamp.{Timespec, timespec_lt, timestamp_adjust}
use proxy_channels.Utils.LogBuilder.{LogPackage, log_unknown_channel}
use proxy_channels.Proxy.Sink.{increment_job_counter, wait_job_finish_all_sinks}

-- LOG_OUTPUT_DELAY_MS
abbrev pub log_output_delay : ℕ
log_output_delay = 2500

-- CCompareLogPackages
unfoldable pub package_lt : LogPackage → LogPackage → Bool
unfolding timespec_lt
package_lt l r = timespec_lt l.timestamp r.timestamp

unfoldable pub insert : LogPackage → List LogPackage → List LogPackage
insert p [] = p ∷ []
insert p (q ∷ qs) = if package_lt p q then p ∷ q ∷ qs else q ∷ insert p qs

-- A message with an unknown channel is skipped; the warning about it is pushed in its place.
unfoldable pub push : LogPackage → LogPackage → List LogPackage → List LogPackage
push warning p records =
    if not (eqb_ℤ p.lchannel log_unknown_channel) then insert p records else insert warning records

-- What lies before upper_bound, and what is left.
unfoldable pub split_upper : LogPackage → List LogPackage → List LogPackage × List LogPackage
split_upper pack [] = ([], [])
split_upper pack (q ∷ qs) =
    let rest = split_upper pack qs in
    if package_lt pack q then ([], q ∷ qs) else (q ∷ rest.0, rest.1)

-- A sink of the logger: its place in `m_sinks`, which tells it from the others, and its channel.
pub record SinkEntry : Type 0 where
  pub place : ℕ
  pub channel : ℤ

-- A work unit of the pool: the sink and the records that it writes.
pub record WorkUnit : Type 0 where
  pub sink : SinkEntry
  pub records : List LogPackage

unfoldable pub has_channel : ℤ → List LogPackage → Bool
has_channel c records = any (λ p. eqb_ℤ p.lchannel c) records

-- The loop over the sinks: the work units, and the job counter.
unfoldable pub start_sinks : List SinkEntry → List LogPackage → ℕ → List WorkUnit × ℕ
unfolding has_channel increment_job_counter
start_sinks [] out counter = ([], counter)
start_sinks (c ∷ cs) out counter =
    let rest = start_sinks cs out (increment_job_counter counter) in
    let skipped = start_sinks cs out counter in
    if has_channel c.channel out
    then (record { sink = c; records = out } ∷ rest.0, rest.1)
    else skipped

pub record Multiplexed : Type 0 where
  pub out_records : List LogPackage
  pub log_records : List LogPackage
  pub work_units : List WorkUnit
  pub job_counter : ℕ

unfoldable pub is_empty : List LogPackage → Bool
is_empty [] = true
is_empty (p ∷ ps) = false

-- What the multiplexer takes out of the records, and what it leaves.
abbrev pub take_due : LogPackage → Timespec → List LogPackage → List LogPackage × List LogPackage
take_due fresh now records =
    split_upper (record fresh { timestamp = timestamp_adjust now (negsuc (log_output_delay - 1)) })
      records

-- `now` is what TS::GetTimestamp gives; `pack` is a new package, of which the time stamp is set.
-- This part runs under the lock of the records.
unfoldable pub hand_over :
    LogPackage → Timespec → List SinkEntry → List LogPackage → ℕ → Multiplexed
unfolding is_empty start_sinks
hand_over fresh now sinks records counter =
    let split = take_due fresh now records in
    let started = start_sinks sinks split.0 counter in
    if is_empty split.0
    then record { out_records = []; log_records = split.1; work_units = []; job_counter = counter }
    else record {
      out_records = split.0;
      log_records = split.1;
      work_units = started.0;
      job_counter = started.1;
    }

-- What is asked before the lock is taken.
unfoldable pub may_hand_over : List LogPackage → ℕ → Bool
unfolding is_empty wait_job_finish_all_sinks
may_hand_over records counter = wait_job_finish_all_sinks counter && not (is_empty records)

-- The whole call, when no other thread comes in between; Running has it step by step.
unfoldable pub log_multiplexer :
    LogPackage → Timespec → List SinkEntry → List LogPackage → ℕ → Multiplexed
unfolding hand_over may_hand_over
log_multiplexer fresh now sinks records counter =
    if may_hand_over records counter
    then hand_over fresh now sinks records counter
    else record { out_records = []; log_records = records; work_units = []; job_counter = counter }

-- TimerClockHandler: the multiplexer is queued as a unit, and the answer keeps the timer.
unfoldable pub timer_clock_handler : Bool → Bool × ℕ
timer_clock_handler continue_timer = (continue_timer, 1)
