-- ===== src/Utils/LockQueue.antt =====
-- utils/lockqueue.h: a queue behind a lock. Each method runs under the lock, so it is one step of
-- the queue; a wait gives the lock away, and the other threads push meanwhile.
use proxy_channels.Base.{List, [], ◌∷◌, ◌++◌, Option, none, some, Bool, true, false}

module _ {ℓ} {A : Type ℓ} where
  unfoldable pub push : List A → A → List A
  push q v = q ++ v ∷ []

  -- The rest of the queue comes back with the value; `none` is a wait.
  unfoldable pub pop : List A → Option (A × List A)
  pop [] = none
  pop (v ∷ q) = some (v, q)

  unfoldable pub empty : List A → Bool
  empty [] = true
  empty (v ∷ q) = false

  -- What is pushed during each wait, until the time is over.
  unfoldable pub pop_try : List (List A) → List A → Option A × List A
  pop_try arrivals (v ∷ q) = (some v, q)
  pop_try [] [] = (none, [])
  pop_try (arrived ∷ arrivals) [] = pop_try arrivals arrived
