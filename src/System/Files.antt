-- ===== src/System/Files.antt =====
-- From the logger (proxy/logger.cpp) to the files of its sinks (proxy/sink.cpp): the units of work
-- that `LogMultiplexer` queues call `Write` of their sink, one batch after the other.
use mathlib.Core.List.{Memᴰ, Perm}
use mathlib.Core.Path.{subst}
use proxy_channels.Base.{
  ◌^◌, ◌<◌, ◌≡◌, ◌==◌, refl, sym, ap, ◌∙◌, inl, inr, List, [], ◌∷◌, ◌++◌, true, false,
  if◌then◌else◌, Bool-cases, none, length, append-nil,
}
use proxy_channels.Base.Int.{ℤ, eqb_ℤ}
use proxy_channels.Utils.LogBuilder.{LogPackage}
use proxy_channels.Proxy.Sink.{Format, Run, is_empty, write}
use proxy_channels.Proxy.Sink.Batches.{opened, write-append}
use proxy_channels.Proxy.Sink.OwnChannel.{
  of_channel, NoStop, NoStop-front, NoStop-back, NoStop-KeepsOpen, write-of_channel, write-channel,
  write-closed, write-nil,
}
use proxy_channels.Proxy.Sink.Text.{
  file_text, AreMessages, AreMessages-NoStop, format_lines, write-file_text,
}
use proxy_channels.Proxy.Logger
use proxy_channels.Proxy.Logger.Running.Conservation.{Reach-free}
use proxy_channels.Proxy.Logger.{SinkEntry, WorkUnit}
use proxy_channels.Proxy.Logger.Delivery.{IsSorted}
use proxy_channels.Proxy.Logger.Running.{Logging, queue_is_empty}
use proxy_channels.Proxy.Logger.Running.Exclusive.{AreDistinct, AloneReach, reach_of}
use proxy_channels.Proxy.Logger.Running.Timely.{IsTimely, Reach-IsSorted}
use proxy_channels.Proxy.Logger.Running.Delivered.{lock_free, queue_is_empty-AllDelivered}
use proxy_channels.Proxy.Logger.Running.InOrder.{written, pending, AloneReach-IsInOrder}

module _ (fm : Format) where
  -- What the units for the sink of a channel do to it.
  unfoldable pub run_units : SinkEntry → List WorkUnit → Run → Run
  run_units k [] r = r
  run_units k (u ∷ us) r =
      let ran = run_units k us (write fm u.records r) in
      let skipped = run_units k us r in if u.sink.place == k.place then ran else skipped

  -- One batch after another is one batch.
  run_units-written :
      (k : SinkEntry) (us : List WorkUnit) (r : Run)
      → r.sink.channel ≡ k.channel
      → r.sink.open_file ≡ none
      → NoStop (written k us)
      → run_units k us r ≡ write fm (written k us) r
  unfolding run_units
  run_units-written k [] r h o = λ n. sym (write-nil fm r o)
  run_units-written k (u ∷ us) r h o = elim (Bool-cases (u.sink.place == k.place)) [
    | inl e ↦ rw e (λ n.
        let own = of_channel k.channel u.records in
        let front = NoStop-front own (written k us) n in
        let once =
          write-of_channel fm u.records r ∙ ap (λ d. write fm (of_channel d u.records) r) h in
        run_units-written k us (write fm u.records r) (write-channel fm u.records r ∙ h)
          (write-closed fm u.records r) (NoStop-back own (written k us) n)
        ∙ ap (λ s. write fm (written k us) s) once
        ∙ sym
            (write-append fm own (written k us) r o (NoStop-KeepsOpen fm own (opened fm r) front)))
    | inr e ↦ rw e (λ n. run_units-written k us r h o n)
  ]

  of_channel-twice :
      (c : ℤ) (ps : List LogPackage) → of_channel c (of_channel c ps) ≡ of_channel c ps
  of_channel-twice c [] = refl
  of_channel-twice c (p ∷ ps) = elim (Bool-cases (eqb_ℤ p.lchannel c)) [
    | inl e ↦ rw (e, e) (ap (λ l. p ∷ l) (of_channel-twice c ps))
    | inr e ↦ rw e (of_channel-twice c ps)
  ]

  module _ (sinks : List SinkEntry) (distinct : AreDistinct sinks)
      (few_sinks : length sinks < 2 ^ 64) (k : SinkEntry) (known : Memᴰ k sinks) where
    -- Let the sinks be fewer than 2^64 and stand at places of their own, one of them `k`, and let no
    -- unit of LogMultiplexer pass its check while another is between its check and its return. Once no
    -- unit writes and none holds the lock, the file sink `k`, which was closed at first, is as after
    -- one single `Write` of the records of its channel that were handed over, in their order, if none
    -- of these tells it to stop.
    pub run_units-write :
        {s : Logging} (x : AloneReach sinks s) (r : Run)
        → s.locked ≡ false
        → s.writing ≡ []
        → r.sink.channel ≡ k.channel
        → r.sink.open_file ≡ none
        → NoStop (of_channel k.channel s.handed)
        → run_units k s.ended r ≡ write fm (of_channel k.channel s.handed) r
    run_units-write {s} x r free quiet h o n =
        let nothing : pending k s.to_start s.out ≡ [] =
          ap (λ cs. pending k cs s.out) (Reach-free sinks (reach_of sinks x) free) in
        let units : s.ended ++ s.writing ≡ s.ended =
          ap (λ l. s.ended ++ l) quiet ∙ append-nil s.ended in
        let all : written k s.ended ≡ of_channel k.channel s.handed =
          sym (
            ap (λ l. l ++ pending k s.to_start s.out) (ap (λ l. written k l) units)
            ∙ ap (λ l. written k s.ended ++ l) nothing
            ∙ append-nil (written k s.ended))
          ∙ AloneReach-IsInOrder sinks distinct few_sinks k known x in
        run_units-written k s.ended r h o (subst NoStop (sym all) n) ∙ ap (λ l. write fm l r) all

    -- Let the sinks be fewer than 2^64 and stand at places of their own, one of them `k`, let no unit of
    -- LogMultiplexer pass its check while another is between its check and its return, and let no
    -- record be logged with a time stamp earlier than a cutoff that LogMultiplexer has used before. Once
    -- the queue is empty and no unit writes, all records that were inserted were handed over, once, in
    -- the order of their time stamps; and the file sink `k`, which was closed at first, with a file
    -- name, has appended to its file the lines of those of its channel, in that order, if these are
    -- all messages.
    pub run_units-file_text :
        {s : Logging} (x : AloneReach sinks s) (r : Run)
        → IsTimely sinks (reach_of sinks x)
        → queue_is_empty s ≡ true
        → s.writing ≡ []
        → r.sink.channel ≡ k.channel
        → r.sink.open_file ≡ none
        → is_empty r.sink.file_name ≡ false
        → AreMessages (of_channel k.channel s.handed)
        → Perm s.handed s.inserted
          × IsSorted s.handed
          × (file_text r.sink.file_name (run_units k s.ended r).lines
              ≡ file_text r.sink.file_name r.lines
                ++ format_lines fm (of_channel k.channel s.handed))
    unfolding queue_is_empty
    run_units-file_text {s} x r timely none_left quiet h o e m =
        let own = of_channel k.channel s.handed in
        let free = (lock_free sinks s.locked (Logger.is_empty s.records) none_left).0 in
        (
          (queue_is_empty-AllDelivered sinks (reach_of sinks x) none_left).0,
          Reach-IsSorted sinks (reach_of sinks x) timely,
          ap (λ t. file_text r.sink.file_name t.lines)
                (run_units-write x r free quiet h o (AreMessages-NoStop own m))
              ∙ write-file_text fm own r m o e
              ∙ ap (λ l. file_text r.sink.file_name r.lines ++ format_lines fm l)
                  (ap (λ d. of_channel d own) h ∙ of_channel-twice k.channel s.handed),
        )
