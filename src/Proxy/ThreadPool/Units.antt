-- ===== src/Proxy/ThreadPool/Units.antt =====
-- The threads of the pool and the units that they run.
use proxy_channels.Base.{
  ℕ, suc, ◌+◌, ◌≡◌, refl, sym, ap, ◌∙◌, List, [], ◌∷◌, ◌++◌, Bool, true, false, append_assoc,
  append-nil, arith, Bool-cases, inl, inr,
}
use proxy_channels.Proxy.ThreadPool.{Pool, set_work_unit, work_thread}

pub data Event : Type 0 where
  queued : ℕ → Bool → Event
  taken : Event

unfoldable pub step : Event → Pool → Pool × List ℕ
step (queued unit is_long) p = (set_work_unit unit is_long p, [])
step taken p = work_thread p

unfoldable pub run : List Event → Pool → Pool × List ℕ
run [] p = (p, [])
run (v ∷ vs) p = let first = step v p in let rest = run vs first.0 in (rest.0, first.1 ++ rest.1)

abbrev pub units : List Event → List ℕ
units [] = []
units (queued unit is_long ∷ vs) = unit ∷ units vs
units (taken ∷ vs) = units vs

abbrev pub long_units : List Event → ℕ
long_units [] = 0
long_units (queued unit true ∷ vs) = suc (long_units vs)
long_units (queued unit false ∷ vs) = long_units vs
long_units (taken ∷ vs) = long_units vs

step-order :
    (v : Event) (p : Pool) → (step v p).1 ++ (step v p).0.wt_queue ≡ p.wt_queue ++ units (v ∷ [])
unfolding step set_work_unit work_thread
step-order (queued unit is_long) p = ground arith
step-order taken p = go p.wt_queue refl
  where
    go :
        (q : List ℕ)
        → p.wt_queue ≡ q
        → (work_thread p).1 ++ (work_thread p).0.wt_queue ≡ p.wt_queue ++ []
    go [] k = rw k refl
    go (unit ∷ rest) k = elim (Bool-cases p.tp_stop) [
      | inl e ↦ rw (k, e) (sym (append-nil (unit ∷ rest)))
      | inr e ↦ rw (k, e) (sym (append-nil (unit ∷ rest)))
    ]

units-append : (v : Event) (vs : List Event) → units (v ∷ vs) ≡ units (v ∷ []) ++ units vs
units-append (queued unit is_long) vs = refl
units-append taken vs = refl

-- The units that ran, followed by those that wait, are those that waited, followed by those that were
-- queued.
pub run-order :
    (vs : List Event) (p : Pool) → (run vs p).1 ++ (run vs p).0.wt_queue ≡ p.wt_queue ++ units vs
unfolding run
run-order [] p = sym (append-nil p.wt_queue)
run-order (v ∷ vs) p =
    let first = step v p in
    append_assoc first.1 (run vs first.0).1 (run vs first.0).0.wt_queue
    ∙ ap (λ l. first.1 ++ l) (run-order vs first.0)
    ∙ sym (append_assoc first.1 first.0.wt_queue (units vs))
    ∙ ap (λ l. l ++ units vs) (step-order v p)
    ∙ append_assoc p.wt_queue (units (v ∷ [])) (units vs)
    ∙ ap (λ l. p.wt_queue ++ l) (sym (units-append v vs))

step-threads :
    (v : Event) (p : Pool)
    → let q = (step v p).0 in
      q.threads + q.available_threads ≡ p.threads + p.available_threads + long_units (v ∷ [])
unfolding step set_work_unit work_thread
step-threads (queued unit true) p = omega arith
step-threads (queued unit false) p = ground arith
step-threads taken p = ground arith

long_units-append :
    (v : Event) (vs : List Event) → long_units (v ∷ vs) ≡ long_units (v ∷ []) + long_units vs
long_units-append (queued unit true) vs = omega arith
long_units-append (queued unit false) vs = omega arith
long_units-append taken vs = omega arith

-- The threads and those still available together grow by the number of long units.
pub run-threads :
    (vs : List Event) (p : Pool)
    → let q = (run vs p).0 in
      q.threads + q.available_threads ≡ p.threads + p.available_threads + long_units vs
unfolding run
run-threads [] p = omega arith
run-threads (v ∷ vs) p =
    omega (arith, run-threads vs (step v p).0, step-threads v p, long_units-append v vs)
