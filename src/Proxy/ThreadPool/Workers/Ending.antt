-- ===== src/Proxy/ThreadPool/Workers/Ending.antt =====
-- How the threads of the pool end when the destructor has notified them in time.
use proxy_channels.Base.{
  ℕ, suc, ◌+◌, ◌*◌, ◌≤◌, ◌≡◌, refl, sym, ap, ◌∙◌, inl, inr, ◌⊎◌, List, [], ◌∷◌, ◌++◌, append_assoc,
  Bool, true, false, arith, Bool-cases, ltb,
}
use mathlib.Core.Path.{subst}
use proxy_channels.Proxy.ThreadPool.Workers.{
  Place, tests, enters, holds, sleeps, runs, ended, Crew, IsFree, Step, queues, goes_on, takes,
  finds_none, falls_asleep, finishes, finds_stop, leaves, stops, notifies, Steps, none_left,
  one_more, QueuesNothing, queued_by, all_queued_by, wake_one, with_new,
}
use proxy_channels.Proxy.ThreadPool.{Pool, set_work_unit}

-- A thread that is not in its wait.
abbrev pub IsUp : Place → Type 0
IsUp holds = ⊥
IsUp sleeps = ⊥
IsUp _ = Unit

abbrev pub AreUp : List Place → Type 0
AreUp [] = Unit
AreUp (p ∷ ps) = IsUp p × AreUp ps

abbrev pub HaveEnded : List Place → Type 0
HaveEnded [] = Unit
HaveEnded (p ∷ ps) = (p ≡ ended) × HaveEnded ps

-- The steps that a thread still has to go.
abbrev pub to_go : Place → ℕ
to_go tests = 1
to_go enters = 2
to_go (runs unit) = 2
to_go _ = 0

abbrev pub all_to_go : List Place → ℕ
all_to_go [] = 0
all_to_go (p ∷ ps) = to_go p + all_to_go ps

AreUp-IsFree : (ps : List Place) → AreUp ps → IsFree ps
AreUp-IsFree [] h = tt
AreUp-IsFree (tests ∷ ps) h = AreUp-IsFree ps h.1
AreUp-IsFree (enters ∷ ps) h = AreUp-IsFree ps h.1
AreUp-IsFree (runs unit ∷ ps) h = AreUp-IsFree ps h.1
AreUp-IsFree (ended ∷ ps) h = AreUp-IsFree ps h.1
AreUp-IsFree (holds ∷ ps) h = h.0
AreUp-IsFree (sleeps ∷ ps) h = absurd h.0

AreUp-replace :
    (us vs : List Place) (a b : Place) → IsUp b → AreUp (us ++ a ∷ vs) → AreUp (us ++ b ∷ vs)
AreUp-replace [] vs a b h k = (h, k.1)
AreUp-replace (u ∷ us) vs a b h k = (k.0, AreUp-replace us vs a b h k.1)

AreUp-at : (us vs : List Place) (a : Place) → AreUp (us ++ a ∷ vs) → IsUp a
AreUp-at [] vs a k = k.0
AreUp-at (u ∷ us) vs a k = AreUp-at us vs a k.1

all_to_go-replace :
    (us vs : List Place) (a b : Place)
    → to_go a ≡ suc (to_go b)
    → all_to_go (us ++ a ∷ vs) ≡ suc (all_to_go (us ++ b ∷ vs))
all_to_go-replace [] vs a b h = omega (arith, h)
all_to_go-replace (u ∷ us) vs a b h = omega (arith, all_to_go-replace us vs a b h)

-- The flag is set, all were notified, and no thread is in its wait.
pub record IsEnding (s : Crew) : Type 0 where
  pub stopped : s.pool.tp_stop ≡ true
  pub told : s.notified ≡ true
  pub up : AreUp s.places

true-false : (b : Bool) → b ≡ true → b ≡ false → ⊥
true-false b h k = cc

-- A thread that was woken or created has at most two steps to go.
wake_one-AreUp : (ps : List Place) → AreUp ps → wake_one ps ≡ ps
unfolding wake_one
wake_one-AreUp [] h = refl
wake_one-AreUp (tests ∷ ps) h = ap (λ l. tests ∷ l) (wake_one-AreUp ps h.1)
wake_one-AreUp (enters ∷ ps) h = ap (λ l. enters ∷ l) (wake_one-AreUp ps h.1)
wake_one-AreUp (runs unit ∷ ps) h = ap (λ l. runs unit ∷ l) (wake_one-AreUp ps h.1)
wake_one-AreUp (ended ∷ ps) h = ap (λ l. ended ∷ l) (wake_one-AreUp ps h.1)
wake_one-AreUp (holds ∷ ps) h = absurd h.0
wake_one-AreUp (sleeps ∷ ps) h = absurd h.0

AreUp-more : (ps : List Place) → AreUp ps → AreUp (ps ++ tests ∷ [])
AreUp-more [] h = (tt, tt)
AreUp-more (p ∷ ps) h = (h.0, AreUp-more ps h.1)

all_to_go-more : (ps : List Place) → all_to_go (ps ++ tests ∷ []) ≡ suc (all_to_go ps)
all_to_go-more [] = refl
all_to_go-more (p ∷ ps) = omega (arith, all_to_go-more ps)

with_new-AreUp :
    (p q : Pool) (ps : List Place)
    → AreUp ps
    → AreUp (with_new p q ps) × (all_to_go (with_new p q ps) ≤ suc (all_to_go ps))
unfolding with_new
with_new-AreUp p q ps h = elim (Bool-cases (ltb p.threads q.threads)) [
  | inl more ↦ rw more (AreUp-more ps h, omega (arith, all_to_go-more ps))
  | inr same ↦ rw same (h, omega arith)
]

set_work_unit-tp_stop :
    (unit : ℕ) (is_long : Bool) (p : Pool) → (set_work_unit unit is_long p).tp_stop ≡ p.tp_stop
unfolding set_work_unit
set_work_unit-tp_stop unit is_long p = ground arith

-- Each step begins no unit, and is one of those that are to go, or queues a unit.
abbrev pub Ends : Crew → Crew → ℕ → Type 0
Ends s t queued =
    IsEnding t × (suc (all_to_go t.places) ≤ all_to_go s.places + 2 * queued) × (t.begun ≡ s.begun)

-- A step that queues no unit can be made.
abbrev pub IsGoing : Crew → Type 0
IsGoing s = (t : Crew) × ((x : Step s t) × QueuesNothing x)

module _ (s : Crew) (i : IsEnding s) where
  replaced :
      (us vs : List Place) (a b : Place)
      → s.places ≡ us ++ a ∷ vs
      → IsUp b
      → to_go a ≡ suc (to_go b)
      → Ends s (record s { places = us ++ b ∷ vs }) 0
  replaced us vs a b e h w = (
    record {
      stopped = i.stopped;
      told = i.told;
      up = AreUp-replace us vs a b h (subst AreUp e i.up);
    },
    omega (arith, ap all_to_go e, all_to_go-replace us vs a b w),
    refl,
  )

  queued_up :
      (unit : ℕ) (is_long : Bool)
      → let after = set_work_unit unit is_long s.pool in
        Ends s (record s { pool = after; places = wake_one (with_new s.pool after s.places) }) 1
  queued_up unit is_long =
      let after = set_work_unit unit is_long s.pool in
      let new = with_new-AreUp s.pool after s.places i.up in
      let same = wake_one-AreUp (with_new s.pool after s.places) new.0 in
      (
        record {
          stopped = set_work_unit-tp_stop unit is_long s.pool ∙ i.stopped;
          told = i.told;
          up = subst AreUp (sym same) new.0;
        },
        omega (arith, ap all_to_go same, new.1),
        refl,
      )

  Step-Ends : {t : Crew} (x : Step s t) → Ends s t (queued_by x)
  Step-Ends (queues unit is_long f) = queued_up unit is_long
  Step-Ends (goes_on us vs h e) = absurd (true-false _ i.stopped h)
  Step-Ends (takes us vs unit rest h f q e) = absurd (true-false _ i.stopped h)
  Step-Ends (finds_none us vs h f q e) = absurd (true-false _ i.stopped h)
  Step-Ends (stops h) = absurd (true-false _ i.stopped h)
  Step-Ends (notifies h n) = absurd (true-false _ i.told n)
  Step-Ends (falls_asleep us vs e) = absurd (AreUp-at us vs holds (subst AreUp e i.up))
  Step-Ends (finishes us vs unit e) = replaced us vs (runs unit) tests e tt refl
  Step-Ends (finds_stop us vs h f e) = replaced us vs enters tests e tt refl
  Step-Ends (leaves us vs h e) = replaced us vs tests ended e tt refl

  -- A thread that has not ended has a step to go.
  goes_further : (us vs : List Place) → s.places ≡ us ++ vs → AreUp vs → HaveEnded vs ⊎ IsGoing s
  goes_further us [] e h = inl tt
  goes_further us (tests ∷ vs) e h = inr (_, (leaves us vs i.stopped e, tt))
  goes_further us (enters ∷ vs) e h =
      inr (_, (finds_stop us vs i.stopped (AreUp-IsFree s.places i.up) e, tt))
  goes_further us (runs unit ∷ vs) e h = inr (_, (finishes us vs unit e, tt))
  goes_further us (holds ∷ vs) e h = absurd h.0
  goes_further us (sleeps ∷ vs) e h = absurd h.0
  goes_further us (ended ∷ vs) e h =
      elim (goes_further (us ++ ended ∷ []) vs (e ∙ sym (append_assoc us (ended ∷ []) vs)) h.1) [
        | inl all ↦ inl (refl, all)
        | inr x ↦ inr x
      ]

pub Steps-HaveEnded :
    {n : ℕ} {s t : Crew}
    → IsEnding s
    → (xs : Steps n s t)
    → (n + all_to_go t.places ≤ all_to_go s.places + 2 * all_queued_by xs)
      × (t.begun ≡ s.begun)
      × (HaveEnded t.places ⊎ IsGoing t)
Steps-HaveEnded {n} {s} i none_left = (omega arith, refl, goes_further s i [] s.places refl i.up)
Steps-HaveEnded {n} {s} i (one_more x xs) =
    let first = Step-Ends s i x in
    let rest = Steps-HaveEnded first.0 xs in
    (omega (arith, first.1, rest.0), rest.1 ∙ first.2, rest.2)
