-- ===== src/Proxy/Logger/Ticking.antt =====
-- The timer of the logger: CLogger::Start, Stop and TimerClockHandler (proxy/logger.cpp) with the
-- timer thread of the pool (proxy/thread_pool.cpp). Time is in microseconds.
use mathlib.Core.List.{Memᴰ}
use proxy_channels.Base.{
  ℕ, ◌+◌, ◌*◌, ◌<◌, ◌≤◌, ◌≡◌, refl, sym, ap, ◌∙◌, List, [], ◌∷◌, Bool, true, false, leb, ltb, ◌==◌,
  if◌then◌else◌, Result, ok, err, assertion, Bool-cases, inl, inr, arith,
}
use proxy_channels.Proxy.ThreadPool.{TimerJob, set_timer, take_new, take_job, round}
use proxy_channels.Proxy.ThreadPool.Timers.{IsSorted, round-NoneDue}
use proxy_channels.Proxy.ThreadPool.Calls.{round-taken, take_new-others, sort_in-own}

-- LOG_OUTPUT_TIMER_PERIOD, and the milliseconds before the first call
abbrev pub log_output_timer_period : ℕ
log_output_timer_period = 1500

abbrev pub start_delay : ℕ
start_delay = 1500

-- m_continueTimer and m_tmJob
pub record LoggerTimer : Type 0 where
  pub continue_timer : Bool
  pub tm_job : TimerJob

-- The manager must be there. `callback` names TimerClockHandler.
unfoldable pub start : Bool → ℕ → ℕ → List TimerJob → Result (LoggerTimer × List TimerJob)
unfolding set_timer
start has_manager now callback queue =
    let job : TimerJob = record {
      tm_point = now + start_delay * 1000;
      tm_period = log_output_timer_period * 1000;
      has_callback = true;
      callback = callback;
    } in
    if has_manager
    then ok (record { continue_timer = true; tm_job = job }, set_timer job queue)
    else err assertion

-- What Stop does when WaitEmptyQueue has returned.
unfoldable pub stop : LoggerTimer → LoggerTimer
stop l = record l { continue_timer = false }

-- A round of the timer thread: what the callbacks answer, the time, and the new jobs.
pub record Round : Type 0 where
  pub fires : ℕ → Bool
  pub now : ℕ
  pub queue : List TimerJob

-- The jobs that are left, and the calls of each round.
unfoldable pub run : List Round → List TimerJob → List TimerJob × List (List ℕ)
run [] jobs = (jobs, [])
run (r ∷ rs) jobs =
    let first = round r.fires r.now r.queue jobs in
    let rest = run rs first.1.0 in (rest.0, first.1.1 ∷ rest.1)

-- The times of the rounds do not fall.
abbrev pub AreTimely : ℕ → List Round → Type 0
AreTimely t [] = Unit
AreTimely t (r ∷ rs) = (t ≤ r.now) × AreTimely r.now rs

module _ (c period : ℕ) where
  abbrev pub Answers : List Round → Type 0
  Answers [] = Unit
  Answers (r ∷ rs) = (r.fires c ≡ true) × Answers rs

  -- A job with the callback is at most a period away.
  abbrev pub IsTicking : ℕ → List TimerJob → Type 0
  IsTicking t jobs =
      (j : TimerJob) × (Memᴰ j jobs
        × (j.callback ≡ c)
        × (j.tm_period ≡ period)
        × (j.tm_point ≤ t + period))

  -- Every round that begins at least a period after the one before calls the callback.
  abbrev pub AreCalledInTime : ℕ → List Round → List (List ℕ) → Type 0
  AreCalledInTime t [] calls = Unit
  AreCalledInTime t (r ∷ rs) [] = ⊥
  AreCalledInTime t (r ∷ rs) (called ∷ calls) =
      (t + period ≤ r.now → Memᴰ c called) × AreCalledInTime r.now rs calls

  abbrev job : ℕ → TimerJob
  job point = record { tm_point = point; tm_period = period; has_callback = true; callback = c }

  module _ (has_period : 0 < period) where
    round-IsTicking :
        (r : Round) (t : ℕ) (jobs : List TimerJob)
        → t ≤ r.now
        → r.fires c ≡ true
        → IsSorted jobs
        → IsTicking t (take_new r.now r.queue jobs).1
        → let done = (round r.fires r.now r.queue jobs).1 in
          IsTicking r.now done.0 × (t + period ≤ r.now → Memᴰ c done.1)
    round-IsTicking r t jobs h f s (j, (m, own, per, near)) =
        let done = (round r.fires r.now r.queue jobs).1 in
        let served = round-taken r.fires r.now r.queue jobs j s m in
        elim (Bool-cases (leb j.tm_point r.now)) [
          | inl e ↦
              let call = rw e at served in
              let (k, (n, same, per', after, soon, steps)) =
                call.1 (ap r.fires own ∙ f) (omega (arith, has_period, per)) in
              (
                (k, (n, same ∙ own, per' ∙ per, omega (arith, soon, per))),
                λ late. rw (sym own) call.0,
              )
          | inr e ↦ (
            (j, (rw e at served, own, per, omega (arith, near, h))),
            λ late. absurd (ground (arith, e, near, late)),
          )
        ]

    run-IsTicking :
        (rs : List Round) (t : ℕ) (jobs : List TimerJob)
        → AreTimely t rs
        → Answers rs
        → IsSorted jobs
        → IsTicking t jobs
        → AreCalledInTime t rs (run rs jobs).1
    unfolding run
    run-IsTicking [] t jobs h f s k = tt
    run-IsTicking (r ∷ rs) t jobs h f s (j, (m, own, per, near)) =
        let taken = take_new-others r.fires r.now j r.queue jobs m in
        let first = round-IsTicking r t jobs h.0 f.0 s (j, (taken, own, per, near)) in
        (
          first.1,
          run-IsTicking rs r.now (round r.fires r.now r.queue jobs).1.0 h.1 f.1
              (round-NoneDue r.fires r.now r.queue jobs s).1 first.0,
        )

  -- The job that Start sets, as the thread takes it.
  take_new-IsTicking :
      (now t point : ℕ) (jobs : List TimerJob)
      → (period == 0) ≡ false
      → point ≤ t + period
      → t ≤ now
      → IsTicking now (take_new now (job point ∷ []) jobs).1
  unfolding take_new take_job
  take_new-IsTicking now t point jobs pos near h = elim (Bool-cases (ltb now point)) [
    | inl early ↦
        rw early (job point, (sort_in-own (job point) jobs, refl, refl, omega (arith, near, h)))
    | inr due ↦ elim (Bool-cases (ltb now (point + period))) [
      | inl soon ↦
          rw (due, pos, soon)
            (
              job (point + period),
              (sort_in-own (job (point + period)) jobs, refl, refl, ground arith),
            )
      | inr late ↦
          rw (due, pos, late)
            (job (now + period), (sort_in-own (job (now + period)) jobs, refl, refl, omega arith))
    ]
  ]

-- If the manager is there, Start sets a timer. Let the timer thread take it in a round not before
-- Start, with a queue in order, and let TimerClockHandler answer true, as it does until Stop. Then of
-- the later rounds, whose times do not fall, each that begins at least the period of 1.5 s after the
-- round before it calls TimerClockHandler.
pub start-AreCalledInTime :
    (t c : ℕ) (fires : ℕ → Bool) (now : ℕ) (jobs : List TimerJob) (rs : List Round)
    → t ≤ now
    → fires c ≡ true
    → IsSorted jobs
    → AreTimely now rs
    → Answers c 1500000 rs
    → (l : LoggerTimer) × (queue : List TimerJob) × ((start true t c [] ≡ ok (l, queue))
        × (l.continue_timer ≡ true)
        × AreCalledInTime c 1500000 now rs (run rs (round fires now queue jobs).1.0).1)
unfolding start set_timer
start-AreCalledInTime t c fires now jobs rs h f s timely answers =
    let first : Round = record {
      fires = fires;
      now = now;
      queue = job c 1500000 (t + 1500000) ∷ [];
    } in
    let ticking =
      round-IsTicking c 1500000 (omega arith) first now jobs (omega arith) f s
        (take_new-IsTicking c 1500000 now t (t + 1500000) jobs (ground arith) (omega arith) h) in
    (
      record { continue_timer = true; tm_job = job c 1500000 (t + 1500000) },
      job c 1500000 (t + 1500000) ∷ [],
      (
        refl,
        refl,
        run-IsTicking c 1500000 (omega arith) rs now _ timely answers
            (round-NoneDue fires now first.queue jobs s).1 ticking.0,
      ),
    )
