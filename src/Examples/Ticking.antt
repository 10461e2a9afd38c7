-- ===== src/Examples/Ticking.antt =====
-- A log statement, and the timer of the logger at concrete times.
use mathlib.Core.List.Memᴰ
use proxy_channels.Base.{ℕ, ◌≡◌, refl, List, [], ◌∷◌, Bool, true, ok, arith, Bytes, codes}
use proxy_channels.Base.Int.{pos}
use proxy_channels.Utils.Timestamp.{Timespec}
use proxy_channels.Utils.LogBuilder.{warn}
use proxy_channels.Utils.LogBuilder.Statement.{
  Carries, concat, destroy, stream_texts, make_builder, destroy-stream_texts,
}
use proxy_channels.Proxy.ThreadPool.{TimerJob, round}
use proxy_channels.Proxy.ThreadPool.Calls.{IsServed, round-IsServed}
use proxy_channels.Proxy.Logger.{timer_clock_handler}
use proxy_channels.Proxy.Logger.Ticking.{
  LoggerTimer, start, Round, run, AreCalledInTime, start-AreCalledInTime,
}

abbrev answers : ℕ → Bool
answers callback = (timer_clock_handler true).0

abbrev at_time : ℕ → Round
at_time now = record { fires = answers; now = now; queue = [] }

start-AreCalledInTime_example :
    let rs = at_time 1500200 ∷ at_time 3000300 ∷ [] in
    (l : LoggerTimer) × (queue : List TimerJob) × ((start true 100 7 [] ≡ ok (l, queue))
      × (l.continue_timer ≡ true)
      × AreCalledInTime 7 1500000 150 rs (run rs (round answers 150 queue []).1.0).1)
unfolding timer_clock_handler
start-AreCalledInTime_example =
    start-AreCalledInTime 100 7 answers 150 [] (at_time 1500200 ∷ at_time 3000300 ∷ [])
      (omega arith) refl tt (omega arith, (omega arith, tt)) (refl, (refl, tt))

abbrev texts : List Bytes
texts = codes "port " ∷ codes "80" ∷ []

destroy-stream_texts_example :
    let now : Timespec = record { tv_sec = pos 1; tv_nsec = pos 0 } in
    Carries 4 6 now
      (pos 0)
      warn
      (codes "TCPSERVER")
      (concat texts)
      (destroy 6 (stream_texts texts (make_builder 4 now (pos 0) warn (codes "TCPSERVER"))))
destroy-stream_texts_example =
    destroy-stream_texts 4 6 (record { tv_sec = pos 1; tv_nsec = pos 0 }) (pos 0) warn
      (codes "TCPSERVER") texts

abbrev waits : TimerJob
waits = record { tm_point = 5; tm_period = 3; has_callback = true; callback = 7 }

round-IsServed_example :
    let done = (round answers 12 [] (waits ∷ [])).1 in IsServed answers 12 waits done.0 done.1
round-IsServed_example = round-IsServed answers 12 [] (waits ∷ []) waits (tt, tt) (Memᴰ.head refl)
