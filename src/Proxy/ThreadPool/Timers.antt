-- ===== src/Proxy/ThreadPool/Timers.antt =====
-- What a round of the timer thread leaves, and when a periodic job comes next.
use proxy_channels.Base.{
  ℕ, zero, suc, ◌+◌, ◌-◌, ◌*◌, ◌<◌, ◌≤◌, ◌≡◌, refl, List, [], ◌∷◌, Bool, ltb, leb, ◌==◌, not, ◌&&◌,
  if◌then◌else◌, length, Bool-cases, inl, inr, arith,
}
use proxy_channels.Proxy.ThreadPool.{
  TimerJob, sort_in, take_job, take_new, next_point, renew, run_due, round,
}

-- For a due job with a period, and fuel that covers its delay, the next point is after `now`, at most
-- a period later, and a number of periods behind the old one.
pub next_point-lt :
    (fuel now period point : ℕ)
    → 0 < period
    → point ≤ now
    → now < point + fuel + 1
    → let next = next_point fuel now period point in
      (now < next) × (next ≤ now + period) × ((k : ℕ) × (next ≡ point + k * period))
unfolding next_point
next_point-lt zero now period point h p e = (omega arith, omega arith, (1, omega arith))
next_point-lt (suc fuel) now period point h p e = elim (Bool-cases (leb (point + period) now)) [
  | inl again ↦
      let rest = next_point-lt fuel now period (point + period) h (ground arith) (omega arith) in
      rw again (rest.0, rest.1, (suc rest.2.0, omega (arith, rest.2.1)))
  | inr done ↦ rw done (ground arith, omega arith, (1, omega arith))
]

abbrev pub AllFrom : ℕ → List TimerJob → Type 0
AllFrom t [] = Unit
AllFrom t (j ∷ js) = (t ≤ j.tm_point) × AllFrom t js

abbrev pub IsSorted : List TimerJob → Type 0
IsSorted [] = Unit
IsSorted (j ∷ js) = AllFrom j.tm_point js × IsSorted js

-- No job of the list is due.
abbrev pub NoneDue : ℕ → List TimerJob → Type 0
NoneDue now [] = Unit
NoneDue now (j ∷ js) = (now < j.tm_point) × NoneDue now js

-- How many jobs are due.
abbrev pub due : ℕ → List TimerJob → ℕ
due now [] = 0
due now (j ∷ js) = if leb j.tm_point now then suc (due now js) else due now js

AllFrom-weaken : (s t : ℕ) (js : List TimerJob) → s ≤ t → AllFrom t js → AllFrom s js
AllFrom-weaken s t [] h f = tt
AllFrom-weaken s t (j ∷ js) h f = (omega (arith, f.0), AllFrom-weaken s t js h f.1)

AllFrom-sort_in :
    (t : ℕ) (j : TimerJob) (js : List TimerJob)
    → t ≤ j.tm_point
    → AllFrom t js
    → AllFrom t (sort_in j js)
unfolding sort_in
AllFrom-sort_in t j [] h f = (h, tt)
AllFrom-sort_in t j (k ∷ js) h f = elim (Bool-cases (ltb j.tm_point k.tm_point)) [
  | inl e ↦ rw e (h, f)
  | inr e ↦ rw e (f.0, AllFrom-sort_in t j js h f.1)
]

pub sort_in-IsSorted : (j : TimerJob) (js : List TimerJob) → IsSorted js → IsSorted (sort_in j js)
unfolding sort_in
sort_in-IsSorted j [] s = (tt, tt)
sort_in-IsSorted j (k ∷ js) s = elim (Bool-cases (ltb j.tm_point k.tm_point)) [
  | inl e ↦ rw e ((ground arith, AllFrom-weaken j.tm_point k.tm_point js (ground arith) s.0), s)
  | inr e ↦ rw e (AllFrom-sort_in k.tm_point j js (ground arith) s.0, sort_in-IsSorted j js s.1)
]

due-sort_in :
    (now : ℕ) (j : TimerJob) (js : List TimerJob)
    → now < j.tm_point
    → due now (sort_in j js) ≡ due now js
unfolding sort_in
due-sort_in now j [] h = ground arith
due-sort_in now j (k ∷ js) h = ground (arith, due-sort_in now j js h)

pub AllFrom-NoneDue : (now t : ℕ) (js : List TimerJob) → now < t → AllFrom t js → NoneDue now js
AllFrom-NoneDue now t [] h f = tt
AllFrom-NoneDue now t (j ∷ js) h f = (omega (arith, f.0), AllFrom-NoneDue now t js h f.1)

pub due-length : (now : ℕ) (js : List TimerJob) → due now js ≤ length js
due-length now [] = omega arith
due-length now (j ∷ js) = ground (arith, due-length now js)

pub none-due : (now : ℕ) (js : List TimerJob) → due now js ≤ 0 → NoneDue now js
none-due now [] h = tt
none-due now (j ∷ js) h = elim (Bool-cases (leb j.tm_point now)) [
  | inl e ↦ absurd (ground arith)
  | inr e ↦ (ground arith, none-due now js (ground arith))
]

module _ (fires : ℕ → Bool) (now : ℕ) where
  pub renew-parts :
      (j : TimerJob) (js : List TimerJob)
      → j.tm_point ≤ now
      → IsSorted js
      → IsSorted (renew fires now j js) × (due now (renew fires now j js) ≡ due now js)
  unfolding renew
  renew-parts j js h s = elim (Bool-cases (fires j.callback && not (j.tm_period == 0))) [
    | inl e ↦ rw e (
      sort_in-IsSorted _ js s,
      due-sort_in now _ js
          (next_point-lt (now - j.tm_point) now j.tm_period j.tm_point (ground arith) h
            (omega arith)).0,
    )
    | inr e ↦ rw e (s, refl)
  ]

  run_due-NoneDue :
      (fuel : ℕ) (js : List TimerJob)
      → IsSorted js
      → due now js ≤ fuel
      → let q = (run_due fires now fuel js).0 in NoneDue now q × IsSorted q
  unfolding run_due
  run_due-NoneDue zero js s h = (none-due now js h, s)
  run_due-NoneDue (suc fuel) [] s h = (tt, tt)
  run_due-NoneDue (suc fuel) (j ∷ js) s h = elim (Bool-cases (leb j.tm_point now)) [
    | inl e ↦
        let r = renew-parts j js (ground arith) s.1 in
        rw e (run_due-NoneDue fuel (renew fires now j js) r.0 (rw r.1 (ground arith)))
    | inr e ↦ rw e ((ground arith, AllFrom-NoneDue now j.tm_point js (ground arith) s.0), s)
  ]

  pub take_new-IsSorted :
      (queue jobs : List TimerJob) → IsSorted jobs → IsSorted (take_new now queue jobs).1
  unfolding take_new take_job
  take_new-IsSorted [] jobs s = s
  take_new-IsSorted (j ∷ queue) jobs s = ground (
    arith,
    s,
    sort_in-IsSorted j jobs s,
    sort_in-IsSorted (record j { tm_point = j.tm_point + j.tm_period }) jobs s,
    sort_in-IsSorted (record j { tm_point = now + j.tm_period }) jobs s,
  )

  -- From a queue in order, a round leaves a queue in order in which no job is due.
  pub round-NoneDue :
      (queue jobs : List TimerJob)
      → IsSorted jobs
      → let left = (round fires now queue jobs).1.0 in NoneDue now left × IsSorted left
  unfolding round
  round-NoneDue queue jobs s =
      let taken = (take_new now queue jobs).1 in
      run_due-NoneDue (length taken) taken (take_new-IsSorted queue jobs s) (due-length now taken)
