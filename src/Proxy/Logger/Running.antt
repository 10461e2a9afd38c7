-- ===== src/Proxy/Logger/Running.antt =====
-- The logger at work (CLogger of proxy/logger.cpp with the counter of CSink): the threads that log,
-- the timer, the units that run LogMultiplexer and those that write, one step at a time. A unit that
-- holds m_queueMutex goes through the sinks one by one, and the others see what it has done so far.
pub mod Conservation
pub mod Delivered
pub mod Exclusive
pub mod InOrder
pub mod Overlap
pub mod Timely
use proxy_channels.Base.{
  ℕ, zero, suc, ◌≡◌, List, [], ◌∷◌, ◌++◌, Bool, true, false, not, ◌&&◌, if◌then◌else◌,
}
use proxy_channels.Base.Int.{eqb_ℤ}
use proxy_channels.Utils.Timestamp.{Timespec}
use proxy_channels.Utils.LogBuilder.{LogPackage, log_unknown_channel}
use proxy_channels.Proxy.Sink.{increment_job_counter, decrement_job_counter}
use proxy_channels.Proxy.Logger.{
  push, has_channel, SinkEntry, WorkUnit, take_due, may_hand_over, is_empty,
}

pub record Logging : Type 0 where
  pub records : List LogPackage
  pub job_counter : ℕ
  -- the units of LogMultiplexer that the timer has queued, and those that are behind the check and
  -- wait for m_queueMutex
  pub queued : ℕ
  pub passed : ℕ
  -- a unit of LogMultiplexer holds m_queueMutex; the sinks that its loop has not come to, and the
  -- records that it hands over
  pub locked : Bool
  pub to_start : List SinkEntry
  pub out : List LogPackage
  -- the units that write
  pub writing : List WorkUnit
  -- what was inserted and handed over so far, and the units that have ended
  pub inserted : List LogPackage
  pub handed : List LogPackage
  pub ended : List WorkUnit

abbrev pub idle : Logging
idle = record {
  records = [];
  job_counter = 0;
  queued = 0;
  passed = 0;
  locked = false;
  to_start = [];
  out = [];
  writing = [];
  inserted = [];
  handed = [];
  ended = [];
}

-- The record that `push` inserts.
abbrev pub taken : LogPackage → LogPackage → LogPackage
taken warning p = if not (eqb_ℤ p.lchannel log_unknown_channel) then p else warning

-- WaitEmptyQueue, which `Stop` calls, takes m_queueMutex, and returns when this holds.
unfoldable pub queue_is_empty : Logging → Bool
unfolding is_empty
queue_is_empty s = not s.locked && is_empty s.records

module _ (sinks : List SinkEntry) where
  pub data Step (s : Logging) : Logging → Type 0 where
    -- Push, which takes m_queueMutex
    logs :
        (warning p : LogPackage)
        → s.locked ≡ false
        → Step s (record s {
          records = push warning p s.records;
          inserted = taken warning p ∷ s.inserted;
        })
    -- TimerClockHandler
    ticks : Step s (record s { queued = suc s.queued })
    -- LogMultiplexer up to its lock
    passes :
        {n : ℕ}
        → s.queued ≡ suc n
        → may_hand_over s.records s.job_counter ≡ true
        → Step s (record s { queued = n; passed = suc s.passed })
    gives_up :
        {n : ℕ}
        → s.queued ≡ suc n
        → may_hand_over s.records s.job_counter ≡ false
        → Step s (record s { queued = n })
    -- LogMultiplexer takes m_queueMutex and its records; the loop is not entered without any
    hands_over :
        (fresh : LogPackage) (now : Timespec) {n : ℕ} (due : List LogPackage × List LogPackage)
        → s.passed ≡ suc n
        → s.locked ≡ false
        → due ≡ take_due fresh now s.records
        → Step s (record s {
          passed = n;
          locked = true;
          to_start = if is_empty due.0 then [] else sinks;
          out = due.0;
          records = due.1;
          handed = s.handed ++ due.0;
        })
    -- one round of its loop: IncrementJobCounter and SetWorkUnit, between which another unit could
    -- only see a counter that is not 0, as it does after both
    starts :
        (c : SinkEntry) (cs : List SinkEntry)
        → s.to_start ≡ c ∷ cs
        → has_channel c.channel s.out ≡ true
        → Step s (record s {
          to_start = cs;
          job_counter = increment_job_counter s.job_counter;
          writing = s.writing ++ record { sink = c; records = s.out } ∷ [];
        })
    skips :
        (c : SinkEntry) (cs : List SinkEntry)
        → s.to_start ≡ c ∷ cs
        → has_channel c.channel s.out ≡ false
        → Step s (record s { to_start = cs })
    -- LogMultiplexer returns
    unlocks : s.locked ≡ true → s.to_start ≡ [] → Step s (record s { locked = false; out = [] })
    -- the end of a unit that writes
    ends :
        (us vs : List WorkUnit) (u : WorkUnit)
        → s.writing ≡ us ++ u ∷ vs
        → Step s (record s {
          writing = us ++ vs;
          job_counter = decrement_job_counter s.job_counter;
          ended = s.ended ++ u ∷ [];
        })

  pub data Reach : Logging → Type 0 where
    start : Reach idle
    later : {s t : Logging} → Reach s → Step s t → Reach t
