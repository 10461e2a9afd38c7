-- ===== src/Proxy/ThreadPool.antt =====
-- proxy/thread_pool.cpp: the timers and the work units of the pool. Time points and periods are
-- numbers of one unit; the state of each wait is an argument.
pub mod Calls
pub mod Timers
pub mod Units
pub mod Workers
use proxy_channels.Base.{
  ℕ, zero, suc, ◌+◌, ◌-◌, List, [], ◌∷◌, ◌++◌, Bool, true, false, ltb, leb, ◌==◌, not, ◌&&◌,
  if◌then◌else◌, length,
}

-- `callback` names the function, whose result is `fires` below.
pub record TimerJob : Type 0 where
  pub tm_point : ℕ
  pub tm_period : ℕ
  pub has_callback : Bool
  pub callback : ℕ

-- std::sort of a queue in order, behind which a job was pushed
unfoldable pub sort_in : TimerJob → List TimerJob → List TimerJob
sort_in j [] = j ∷ []
sort_in j (k ∷ ks) = if ltb j.tm_point k.tm_point then j ∷ k ∷ ks else k ∷ sort_in j ks

-- A new job, as it is taken from tj_queue: where it goes in the queue of the thread.
unfoldable pub take_job : ℕ → TimerJob → List TimerJob → List TimerJob
unfolding sort_in
take_job now j jobs =
    let next = j.tm_point + j.tm_period in
    if j.has_callback
    then if ltb now j.tm_point
      then sort_in j jobs
      else if not (j.tm_period == 0)
      then if ltb now next
        then sort_in (record j { tm_point = next }) jobs
        else sort_in (record j { tm_point = now + j.tm_period }) jobs
      else jobs
    else jobs

unfoldable pub take_new : ℕ → List TimerJob → List TimerJob → List TimerJob × List TimerJob
unfolding take_job
take_new now [] jobs = ([], jobs)
take_new now (j ∷ queue) jobs = (queue, take_job now j jobs)

-- do { tmPoint += tmPeriod; } while (tmPoint <= now)
unfoldable pub next_point : ℕ → ℕ → ℕ → ℕ → ℕ
next_point zero now period point = point + period
next_point (suc fuel) now period point =
    let more = next_point fuel now period (point + period) in
    if leb (point + period) now then more else point + period

module _ (fires : ℕ → Bool) (now : ℕ) where
  unfoldable pub renew : TimerJob → List TimerJob → List TimerJob
  unfolding sort_in
  renew j jobs =
      if fires j.callback && not (j.tm_period == 0)
      then sort_in
          (record j { tm_point = next_point (now - j.tm_point) now j.tm_period j.tm_point }) jobs
      else jobs

  -- while (!empty && front.tmPoint <= now), and the callbacks that it calls
  unfoldable pub run_due : ℕ → List TimerJob → List TimerJob × List ℕ
  run_due zero jobs = (jobs, [])
  run_due (suc fuel) [] = ([], [])
  run_due (suc fuel) (j ∷ jobs) =
      let rest = run_due fuel (renew j jobs) in
      if leb j.tm_point now then (rest.0, j.callback ∷ rest.1) else (j ∷ jobs, [])

  -- One round of the timer thread, when it is not stopped.
  unfoldable pub round : List TimerJob → List TimerJob → List TimerJob × (List TimerJob × List ℕ)
  round queue jobs =
      let taken = take_new now queue jobs in (taken.0, run_due (length taken.1) taken.1)

-- The jobs that SetTimer leaves for the thread.
unfoldable pub set_timer : TimerJob → List TimerJob → List TimerJob
set_timer j queue = queue ++ j ∷ []

-- The working half: the threads of the group, how many more it may have, and the units that wait.
pub record Pool : Type 0 where
  pub threads : ℕ
  pub available_threads : ℕ
  pub wt_queue : List ℕ
  pub tp_stop : Bool

-- hardware_concurrency may be unknown, which it says by 0.
unfoldable pub make_pool : ℕ → Pool
make_pool hardware_concurrency = record {
  threads = 0;
  available_threads = if hardware_concurrency == 0 then 3 else hardware_concurrency;
  wt_queue = [];
  tp_stop = false;
}

unfoldable pub set_work_unit : ℕ → Bool → Pool → Pool
set_work_unit unit is_long p =
    let q = record p { wt_queue = p.wt_queue ++ unit ∷ [] } in
    if is_long
    then record q { threads = p.threads + 1 }
    else if ltb 0 p.available_threads && ltb 0 (length p.wt_queue)
    then record q { threads = p.threads + 1; available_threads = p.available_threads - 1 }
    else q

-- A thread that is awake takes the first unit, unless the pool is stopped.
unfoldable pub work_thread : Pool → Pool × List ℕ
work_thread p = elim p.wt_queue [
  | [] ↦ (p, [])
  | unit ∷ rest ↦ if p.tp_stop then (p, []) else (record p { wt_queue = rest }, unit ∷ [])
]
