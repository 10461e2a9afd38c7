-- ===== src/Examples/Workers.antt =====
-- The threads of the pool at its end.
use mathlib.Core.List.{Memᴰ}
use proxy_channels.Base.{ℕ, ◌+◌, ◌*◌, ◌≤◌, ◌≡◌, refl, ◌⊎◌, [], ◌∷◌, true, false}
use proxy_channels.Proxy.ThreadPool.{Pool, set_work_unit}
use proxy_channels.Proxy.ThreadPool.Workers.{
  tests, enters, holds, sleeps, runs, Crew, queues, finishes, Steps, none_left, one_more,
  QueueNothing, all_queued_by, wake_one, with_new,
}
use proxy_channels.Proxy.ThreadPool.Workers.Ending.{HaveEnded, all_to_go, IsGoing, Steps-HaveEnded}
use proxy_channels.Proxy.ThreadPool.Workers.Missed.{missed_notice}

abbrev small_pool : Pool
small_pool = record { threads = 1; available_threads = 3; wt_queue = []; tp_stop = false }

abbrev one_holds : Crew
one_holds = record { pool = small_pool; places = holds ∷ []; begun = []; notified = false }

missed_notice_example :
    (t : Crew) × (Steps 3 one_holds t
      × (t.notified ≡ true)
      × ((n : ℕ) (u : Crew) (xs : Steps n t u) → QueueNothing xs → Memᴰ sleeps u.places))
missed_notice_example = missed_notice one_holds [] [] refl refl refl

abbrev told : Crew
told = record {
  pool = record small_pool { tp_stop = true };
  places = runs 5 ∷ enters ∷ [];
  begun = 5 ∷ [];
  notified = true;
}

-- The unit that runs queues one more in the destructor, and ends.
abbrev one_queued : Crew
one_queued = record told {
  pool = set_work_unit 6 false told.pool;
  places = wake_one (with_new told.pool (set_work_unit 6 false told.pool) told.places);
}

two_steps : Steps 2 told (record one_queued { places = tests ∷ enters ∷ [] })
unfolding wake_one with_new set_work_unit
two_steps = one_more (queues 6 false tt) (one_more (finishes [] (enters ∷ []) 5 refl) none_left)

abbrev one_later : Crew
one_later = record one_queued { places = tests ∷ enters ∷ [] }

Steps-HaveEnded_example :
    (2 + all_to_go one_later.places ≤ all_to_go told.places + 2 * all_queued_by two_steps)
    × (one_later.begun ≡ told.begun)
    × (HaveEnded one_later.places ⊎ IsGoing one_later)
Steps-HaveEnded_example =
    Steps-HaveEnded (record { stopped = refl; told = refl; up = (tt, (tt, tt)) }) two_steps
