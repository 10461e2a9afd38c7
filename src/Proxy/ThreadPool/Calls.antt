-- ===== src/Proxy/ThreadPool/Calls.antt =====
-- Which timers a round of the timer thread calls, and which stay.
use mathlib.Core.List.{Memᴰ}
use mathlib.Core.List.Memᴰ
use mathlib.Core.Path.{subst}
use proxy_channels.Base.{
  ℕ, zero, suc, ◌+◌, ◌-◌, ◌*◌, ◌<◌, ◌≤◌, ◌≡◌, refl, sym, List, [], ◌∷◌, Bool, true, false, ltb, leb,
  ◌==◌, not, ◌&&◌, if◌then◌else◌, length, Bool-cases, inl, inr, arith,
}
use proxy_channels.Proxy.ThreadPool.{
  TimerJob, sort_in, take_job, take_new, next_point, renew, run_due, round,
}
use proxy_channels.Proxy.ThreadPool.Timers.{
  next_point-lt, IsSorted, NoneDue, due, due-length, none-due, AllFrom-NoneDue, renew-parts,
  take_new-IsSorted,
}

pub sort_in-own : (j : TimerJob) (js : List TimerJob) → Memᴰ j (sort_in j js)
unfolding sort_in
sort_in-own j [] = Memᴰ.head refl
sort_in-own j (k ∷ js) = elim (Bool-cases (ltb j.tm_point k.tm_point)) [
  | inl e ↦ rw e (Memᴰ.head refl)
  | inr e ↦ rw e (Memᴰ.tail (sort_in-own j js))
]

sort_in-others : (j k : TimerJob) (js : List TimerJob) → Memᴰ k js → Memᴰ k (sort_in j js)
unfolding sort_in
sort_in-others j k [] m = elim m [ ]
sort_in-others j k (i ∷ js) m = elim (Bool-cases (ltb j.tm_point i.tm_point)) [
  | inl e ↦ rw e (Memᴰ.tail m)
  | inr e ↦ rw e (elim (Memᴰ.cases_cons m) [
    | inl h ↦ Memᴰ.head h
    | inr t ↦ Memᴰ.tail (sort_in-others j k js t)
  ])
]

NoneDue-later :
    (now : ℕ) (j : TimerJob) (js : List TimerJob) → NoneDue now js → Memᴰ j js → now < j.tm_point
NoneDue-later now j [] n m = elim m [ ]
NoneDue-later now j (k ∷ js) n m = elim (Memᴰ.cases_cons m) [
  | inl h ↦ subst (λ i. now < i.tm_point) (sym h) n.0
  | inr t ↦ NoneDue-later now j js n.1 t
]

module _ (fires : ℕ → Bool) (now : ℕ) where
  -- A due job is called, and it stays, at a later point in steps of its period, if its callback
  -- answers true and it has a period.
  abbrev pub IsCalled : TimerJob → List TimerJob → List ℕ → Type 0
  IsCalled j left calls =
      Memᴰ j.callback calls
      × (fires j.callback ≡ true
          → 0 < j.tm_period
          → (k : TimerJob) × (Memᴰ k left
              × (k.callback ≡ j.callback)
              × (k.tm_period ≡ j.tm_period)
              × (now < k.tm_point)
              × (k.tm_point ≤ now + j.tm_period)
              × ((n : ℕ) × (k.tm_point ≡ j.tm_point + n * j.tm_period))))

  -- What becomes of a job in a round.
  abbrev pub IsServed : TimerJob → List TimerJob → List ℕ → Type 0
  IsServed j left calls = if leb j.tm_point now then IsCalled j left calls else Memᴰ j left

  renew-own :
      (j : TimerJob) (js : List TimerJob)
      → fires j.callback ≡ true
      → 0 < j.tm_period
      → Memᴰ
          (record j { tm_point = next_point (now - j.tm_point) now j.tm_period j.tm_point })
          (renew fires now j js)
  unfolding renew
  renew-own j js f p =
      let has_period : (j.tm_period == 0) ≡ false = ground arith in
      rw (f, has_period) (sort_in-own _ js)

  renew-others : (j k : TimerJob) (js : List TimerJob) → Memᴰ k js → Memᴰ k (renew fires now j js)
  unfolding renew
  renew-others j k js m = elim (Bool-cases (fires j.callback && not (j.tm_period == 0))) [
    | inl e ↦ rw e (sort_in-others _ k js m)
    | inr e ↦ rw e m
  ]

  later-job : (j : TimerJob) → now < j.tm_point → leb j.tm_point now ≡ false
  later-job j h = ground arith

  IsServed-later :
      (j : TimerJob) (left : List TimerJob) (calls : List ℕ)
      → now < j.tm_point
      → IsServed j left calls
      → Memᴰ j left
  IsServed-later j left calls h s = rw (later-job j h) at s

  IsServed-call :
      (j : TimerJob) (left : List TimerJob) (calls : List ℕ) (c : ℕ)
      → IsServed j left calls
      → IsServed j left (c ∷ calls)
  IsServed-call j left calls c s = elim (Bool-cases (leb j.tm_point now)) [
    | inl e ↦ let s' = rw e at s in rw e (Memᴰ.tail s'.0, s'.1)
    | inr e ↦ rw e (rw e at s)
  ]

  run_due-IsServed :
      (fuel : ℕ) (j : TimerJob) (js : List TimerJob)
      → IsSorted js
      → due now js ≤ fuel
      → Memᴰ j js
      → let done = run_due fires now fuel js in IsServed j done.0 done.1
  unfolding run_due
  run_due-IsServed zero j js s h m =
      rw (later-job j (NoneDue-later now j js (none-due now js h) m)) m
  run_due-IsServed (suc fuel) j [] s h m = elim m [ ]
  run_due-IsServed (suc fuel) j (k ∷ js) s h m = elim (Bool-cases (leb k.tm_point now)) [
    | inl e ↦
        let r = renew-parts fires now k js (ground arith) s.1 in
        let enough : due now (renew fires now k js) ≤ fuel = rw r.1 (ground arith) in
        let next = λ (i : TimerJob). run_due-IsServed fuel i (renew fires now k js) r.0 enough in
        elim (Memᴰ.cases_cons m) [
          | inl same ↦ rw e (
              subst
                (λ i.
                  IsServed i (run_due fires now fuel (renew fires now k js)).0
                    (k.callback ∷ (run_due fires now fuel (renew fires now k js)).1))
                (sym same)
                (rw e (
                  Memᴰ.head refl,
                  λ f p.
                      let n =
                        next_point-lt (now - k.tm_point) now k.tm_period k.tm_point p (ground arith)
                          (ground arith) in
                      let k' : TimerJob = record k {
                        tm_point = next_point (now - k.tm_point) now k.tm_period k.tm_point;
                      } in
                      (
                        k',
                        (
                          IsServed-later k' _ _ n.0 (next k' (renew-own k js f p)),
                          refl,
                          refl,
                          n.0,
                          n.1,
                          n.2,
                        ),
                      ),
                )))
          | inr t ↦ rw e (IsServed-call j _ _ k.callback (next j (renew-others k j js t)))
        ]
    | inr e ↦
        let waits : NoneDue now (k ∷ js) =
          (ground arith, AllFrom-NoneDue now k.tm_point js (ground arith) s.0) in
        rw (e, later-job j (NoneDue-later now j (k ∷ js) waits m)) m
  ]

  pub take_new-others :
      (j : TimerJob) (queue jobs : List TimerJob) → Memᴰ j jobs → Memᴰ j (take_new now queue jobs).1
  unfolding take_new take_job
  take_new-others j [] jobs m = m
  take_new-others j (k ∷ queue) jobs m = ground (
    arith,
    m,
    sort_in-others k j jobs m,
    sort_in-others (record k { tm_point = k.tm_point + k.tm_period }) j jobs m,
    sort_in-others (record k { tm_point = now + k.tm_period }) j jobs m,
  )

  -- A job that the round has, of the queue or newly taken.
  pub round-taken :
      (queue jobs : List TimerJob) (j : TimerJob)
      → IsSorted jobs
      → Memᴰ j (take_new now queue jobs).1
      → let done = (round fires now queue jobs).1 in IsServed j done.0 done.1
  unfolding round
  round-taken queue jobs j s m =
      let taken = (take_new now queue jobs).1 in
      run_due-IsServed (length taken) j taken (take_new-IsSorted fires now queue jobs s)
        (due-length now taken) m

  -- From a queue in order, a round calls every job of it that is due, and keeps those that are not. A
  -- due job whose callback answers true and that has a period stays, at a point behind `now`, at most
  -- a period later, and a number of periods behind its old one.
  pub round-IsServed :
      (queue jobs : List TimerJob) (j : TimerJob)
      → IsSorted jobs
      → Memᴰ j jobs
      → let done = (round fires now queue jobs).1 in IsServed j done.0 done.1
  round-IsServed queue jobs j s m = round-taken queue jobs j s (take_new-others j queue jobs m)
