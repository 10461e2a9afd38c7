-- ===== src/Examples/Scheduling.antt =====
-- The pool and the signals.
use proxy_channels.Base.{ℕ, ◌≡◌, refl, [], ◌∷◌, true, false, arith}
use proxy_channels.Proxy.ThreadPool.{TimerJob, round}
use proxy_channels.Proxy.Signals.Handlers.{
  Dispositions, other, handler, sig_dfl, set_handler, unset_handler, listed,
  unset_handler-set_handler,
}
use proxy_channels.Proxy.ThreadPool.Timers.{NoneDue, IsSorted, round-NoneDue}

abbrev job : ℕ → TimerJob
job n = record { tm_point = n; tm_period = 3; has_callback = true; callback = n }

round-NoneDue_example :
    let left = (round (λ n. true) 10 (job 4 ∷ []) (job 2 ∷ job 20 ∷ [])).1.0 in
    NoneDue 10 left × IsSorted left
round-NoneDue_example =
    round-NoneDue (λ n. true) 10 (job 4 ∷ []) (job 2 ∷ job 20 ∷ []) ((omega arith, tt), (tt, tt))

abbrev dispositions : Dispositions
dispositions n = other

unset_handler-set_handler_example :
    let alive = (set_handler (λ n. false) (2 ∷ 15 ∷ []) dispositions).0 in
    (alive 2 ≡ handler) × (unset_handler (λ n. false) (2 ∷ 15 ∷ []) alive 2 ≡ sig_dfl)
unfolding listed
unset_handler-set_handler_example =
    unset_handler-set_handler (λ n. false) (2 ∷ 15 ∷ []) dispositions 2 (refl, (refl, tt))
