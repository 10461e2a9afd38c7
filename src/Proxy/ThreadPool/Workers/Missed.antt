-- ===== src/Proxy/ThreadPool/Workers/Missed.antt =====
-- A thread that is between its predicate and its sleep when the destructor notifies.
use mathlib.Core.List.{Memᴰ}
use mathlib.Core.List.Memᴰ
use mathlib.Core.Path.{subst}
use proxy_channels.Base.{
  ℕ, ◌≡◌, ◌≢◌, refl, ap, ◌∙◌, inl, inr, List, [], ◌∷◌, ◌++◌, Bool, true, false,
}
use proxy_channels.Proxy.ThreadPool.Workers.{
  Place, tests, enters, holds, sleeps, runs, ended, Crew, wake, wake_all, Step, queues, goes_on,
  takes, finds_none, falls_asleep, finishes, finds_stop, leaves, stops, notifies, Steps, none_left,
  one_more, QueuesNothing, QueueNothing,
}

-- A place that is not replaced stays.
Memᴰ-replace :
    (us vs : List Place) (p a b : Place) → p ≢ a → Memᴰ p (us ++ a ∷ vs) → Memᴰ p (us ++ b ∷ vs)
Memᴰ-replace us vs p a b n m = elim (Memᴰ.append_cases us m) [
  | inl x ↦ Memᴰ.append_left (b ∷ vs) x
  | inr y ↦ elim (Memᴰ.cases_cons y) [
    | inl e ↦ absurd (n e)
    | inr z ↦ Memᴰ.append_right us (Memᴰ.tail z)
  ]
]

true-false : (b : Bool) → b ≡ true → b ≡ false → ⊥
true-false b h k = cc

-- A thread sleeps while the destructor waits for it.
record IsLost (s : Crew) : Type 0 where
  stopped : s.pool.tp_stop ≡ true
  told : s.notified ≡ true
  asleep : Memᴰ sleeps s.places

Step-IsLost : {s t : Crew} → IsLost s → (x : Step s t) → QueuesNothing x → IsLost t
Step-IsLost i (queues unit is_long f) = λ q. absurd q
Step-IsLost i (goes_on us vs h e) = λ q. absurd (true-false _ i.stopped h)
Step-IsLost i (takes us vs unit rest h f q e) = λ q. absurd (true-false _ i.stopped h)
Step-IsLost i (finds_none us vs h f q e) = λ q. absurd (true-false _ i.stopped h)
Step-IsLost i (stops h) = λ q. absurd (true-false _ i.stopped h)
Step-IsLost i (notifies h n) = λ q. absurd (true-false _ i.told n)
Step-IsLost i (falls_asleep us vs e) = λ q. record {
  stopped = i.stopped;
  told = i.told;
  asleep = Memᴰ-replace us vs sleeps holds sleeps (λ x. cc) (subst (Memᴰ sleeps) e i.asleep);
}
Step-IsLost i (finishes us vs unit e) = λ q. record {
  stopped = i.stopped;
  told = i.told;
  asleep = Memᴰ-replace us vs sleeps (runs unit) tests (λ x. cc) (subst (Memᴰ sleeps) e i.asleep);
}
Step-IsLost i (finds_stop us vs h f e) = λ q. record {
  stopped = i.stopped;
  told = i.told;
  asleep = Memᴰ-replace us vs sleeps enters tests (λ x. cc) (subst (Memᴰ sleeps) e i.asleep);
}
Step-IsLost i (leaves us vs h e) = λ q. record {
  stopped = i.stopped;
  told = i.told;
  asleep = Memᴰ-replace us vs sleeps tests ended (λ x. cc) (subst (Memᴰ sleeps) e i.asleep);
}

Steps-IsLost : {n : ℕ} {s t : Crew} → IsLost s → (xs : Steps n s t) → QueueNothing xs → IsLost t
Steps-IsLost i none_left q = i
Steps-IsLost i (one_more x xs) q = Steps-IsLost (Step-IsLost i x q.0) xs q.1

wake_all-split :
    (us vs : List Place) → wake_all (us ++ holds ∷ vs) ≡ wake_all us ++ holds ∷ wake_all vs
unfolding wake_all wake
wake_all-split [] vs = refl
wake_all-split (u ∷ us) vs = ap (λ l. wake u ∷ l) (wake_all-split us vs)

-- If a thread has found nothing and is about to sleep, then the destructor may set the flag and notify
-- before it does; after that, whatever steps follow among which no unit is queued, a thread sleeps,
-- which the destructor waits for.
pub missed_notice :
    (s : Crew) (us vs : List Place)
    → s.pool.tp_stop ≡ false
    → s.notified ≡ false
    → s.places ≡ us ++ holds ∷ vs
    → (t : Crew) × (Steps 3 s t
        × (t.notified ≡ true)
        × ((n : ℕ) (u : Crew) (xs : Steps n t u) → QueueNothing xs → Memᴰ sleeps u.places))
missed_notice s us vs h k e =
    let s1 : Crew = record s { pool = record s.pool { tp_stop = true } } in
    let s2 : Crew = record s1 { places = wake_all s.places; notified = true } in
    let s3 : Crew = record s2 { places = wake_all us ++ sleeps ∷ wake_all vs } in
    let lost : IsLost s3 = record {
      stopped = refl;
      told = refl;
      asleep = Memᴰ.append_right (wake_all us) (Memᴰ.head refl);
    } in
    (
      s3,
      (
        one_more (stops h) (
            one_more (notifies refl k) (
              one_more
                (falls_asleep (wake_all us) (wake_all vs) (ap wake_all e ∙ wake_all-split us vs))
                none_left)),
        refl,
        λ n u xs q. (Steps-IsLost lost xs q).asleep,
      ),
    )
