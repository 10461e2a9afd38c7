-- ===== src/Proxy/ThreadPool/Workers.antt =====
-- The threads of the pool at work and at its end (proxy/thread_pool.cpp: work_thread, SetWorkUnit and
-- the destructor), one step at a time. wt_mtx is held where a step needs it; tp_stop is read and set
-- without it, as in the source. The condition variable wakes only those that it is notified for.
pub mod Ending
pub mod Missed
use proxy_channels.Base.{
  ℕ, zero, suc, ◌+◌, ◌≡◌, List, [], ◌∷◌, ◌++◌, Bool, true, false, if◌then◌else◌, ltb,
}
use proxy_channels.Proxy.ThreadPool.{Pool, set_work_unit}

-- Where a thread of the group is.
pub data Place : Type 0 where
  -- at `while (!tp_stop)`
  tests : Place
  -- before the predicate of the wait, for which it takes the lock
  enters : Place
  -- in the wait with the lock, having found nothing
  holds : Place
  -- in the wait without the lock
  sleeps : Place
  runs : ℕ → Place
  ended : Place

pub record Crew : Type 0 where
  pub pool : Pool
  pub places : List Place
  -- the units that have begun, and whether the destructor has notified all
  pub begun : List ℕ
  pub notified : Bool

-- wt_mtx is free.
abbrev pub IsFree : List Place → Type 0
IsFree [] = Unit
IsFree (holds ∷ ps) = ⊥
IsFree (_ ∷ ps) = IsFree ps

-- notify_all
unfoldable pub wake : Place → Place
wake sleeps = enters
wake p = p

unfoldable pub wake_all : List Place → List Place
unfolding wake
wake_all [] = []
wake_all (p ∷ ps) = wake p ∷ wake_all ps

-- notify_one, which wakes one that sleeps
unfoldable pub wake_one : List Place → List Place
wake_one [] = []
wake_one (sleeps ∷ ps) = enters ∷ ps
wake_one (p ∷ ps) = p ∷ wake_one ps

-- The places after SetWorkUnit, with the thread that it may have created.
unfoldable pub with_new : Pool → Pool → List Place → List Place
with_new p q ps = if ltb p.threads q.threads then ps ++ tests ∷ [] else ps

pub data Step (s : Crew) : Crew → Type 0 where
  -- SetWorkUnit, which does not ask for tp_stop: a unit that runs may call it in the destructor
  queues :
      (unit : ℕ) (is_long : Bool)
      → IsFree s.places
      → Step s (record s {
        pool = set_work_unit unit is_long s.pool;
        places = wake_one (with_new s.pool (set_work_unit unit is_long s.pool) s.places);
      })
  goes_on :
      (us vs : List Place)
      → s.pool.tp_stop ≡ false
      → s.places ≡ us ++ tests ∷ vs
      → Step s (record s { places = us ++ enters ∷ vs })
  takes :
      (us vs : List Place) (unit : ℕ) (rest : List ℕ)
      → s.pool.tp_stop ≡ false
      → IsFree s.places
      → s.pool.wt_queue ≡ unit ∷ rest
      → s.places ≡ us ++ enters ∷ vs
      → Step s (record s {
        pool = record s.pool { wt_queue = rest };
        places = us ++ runs unit ∷ vs;
        begun = s.begun ++ unit ∷ [];
      })
  finds_none :
      (us vs : List Place)
      → s.pool.tp_stop ≡ false
      → IsFree s.places
      → s.pool.wt_queue ≡ []
      → s.places ≡ us ++ enters ∷ vs
      → Step s (record s { places = us ++ holds ∷ vs })
  falls_asleep :
      (us vs : List Place)
      → s.places ≡ us ++ holds ∷ vs
      → Step s (record s { places = us ++ sleeps ∷ vs })
  finishes :
      (us vs : List Place) (unit : ℕ)
      → s.places ≡ us ++ runs unit ∷ vs
      → Step s (record s { places = us ++ tests ∷ vs })
  -- the predicate and the `continue` behind the wait
  finds_stop :
      (us vs : List Place)
      → s.pool.tp_stop ≡ true
      → IsFree s.places
      → s.places ≡ us ++ enters ∷ vs
      → Step s (record s { places = us ++ tests ∷ vs })
  leaves :
      (us vs : List Place)
      → s.pool.tp_stop ≡ true
      → s.places ≡ us ++ tests ∷ vs
      → Step s (record s { places = us ++ ended ∷ vs })
  -- the destructor
  stops : s.pool.tp_stop ≡ false → Step s (record s { pool = record s.pool { tp_stop = true } })
  notifies :
      s.pool.tp_stop ≡ true
      → s.notified ≡ false
      → Step s (record s { places = wake_all s.places; notified = true })

-- `n` steps.
pub data Steps : ℕ → Crew → Crew → Type 0 where
  none_left : {s : Crew} → Steps 0 s s
  one_more : {n : ℕ} {s t u : Crew} → Step s t → Steps n t u → Steps (suc n) s u

-- A step of a thread or of the destructor.
abbrev pub QueuesNothing : {s t : Crew} → Step s t → Type 0
QueuesNothing (queues unit is_long f) = ⊥
QueuesNothing _ = Unit

abbrev pub QueueNothing : {n : ℕ} {s t : Crew} → Steps n s t → Type 0
QueueNothing none_left = Unit
QueueNothing (one_more x xs) = QueuesNothing x × QueueNothing xs

-- How many units the steps queue.
abbrev pub queued_by : {s t : Crew} → Step s t → ℕ
queued_by (queues unit is_long f) = 1
queued_by _ = 0

abbrev pub all_queued_by : {n : ℕ} {s t : Crew} → Steps n s t → ℕ
all_queued_by none_left = 0
all_queued_by (one_more x xs) = queued_by x + all_queued_by xs
