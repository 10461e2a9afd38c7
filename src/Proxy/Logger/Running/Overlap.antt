-- ===== src/Proxy/Logger/Running/Overlap.antt =====
-- What happens when two units of LogMultiplexer overlap: both have read the job counter before either
-- takes the lock.
use proxy_channels.Base.{◌≡◌, refl, [], ◌∷◌, true, false}
use proxy_channels.Base.Int.{eqb_ℤ}
use proxy_channels.Utils.Timestamp.{Timespec}
use proxy_channels.Utils.LogBuilder.{LogPackage, log_unknown_channel}
use proxy_channels.Proxy.Sink.{wait_job_finish_all_sinks}
use proxy_channels.Proxy.Logger.{
  package_lt, insert, push, split_upper, has_channel, SinkEntry, take_due, may_hand_over, is_empty,
}
use proxy_channels.Proxy.Logger.Delivery.{cutoff}
use proxy_channels.Proxy.Logger.Running.{
  Logging, logs, ticks, passes, hands_over, starts, unlocks, Reach, start, later,
}

module _ (c : SinkEntry) (fresh : LogPackage) (now : Timespec) (warning : LogPackage) where
  -- A record of the channel that is due.
  pub record IsDue (p : LogPackage) : Type 0 where
    pub own : eqb_ℤ p.lchannel c.channel ≡ true
    pub known : eqb_ℤ p.lchannel log_unknown_channel ≡ false
    pub early : package_lt (cutoff fresh now) p ≡ false

  push-one : (p : LogPackage) → IsDue p → push warning p [] ≡ p ∷ []
  unfolding push insert
  push-one p d = rw d.known refl

  take_due-one : (p : LogPackage) → IsDue p → (p ∷ [], []) ≡ take_due fresh now (push warning p [])
  unfolding split_upper
  take_due-one p d = rw (push-one p d, d.early) refl

  has_channel-one : (p : LogPackage) → IsDue p → has_channel c.channel (p ∷ []) ≡ true
  unfolding has_channel
  has_channel-one p d = rw d.own refl

  may_hand_over-one : (p : LogPackage) → IsDue p → may_hand_over (push warning p []) 0 ≡ true
  unfolding may_hand_over wait_job_finish_all_sinks is_empty
  may_hand_over-one p d = rw (push-one p d) refl

  -- From an idle logger with one sink, and two records of its channel that are due: if the second is
  -- logged between the locks of two units of LogMultiplexer that have both passed their check, then
  -- two units write to that sink at once.
  pub Reach-overlap :
      (p q : LogPackage)
      → IsDue p
      → IsDue q
      → (s : Logging) × (Reach (c ∷ []) s
          × (s.writing
              ≡ record { sink = c; records = p ∷ [] } ∷ record { sink = c; records = q ∷ [] } ∷ []))
  unfolding is_empty
  Reach-overlap p q dp dq =
      let r1 = later start (logs warning p refl) in
      let r3 = later (later r1 ticks) ticks in
      let r4 = later r3 (passes refl (may_hand_over-one p dp)) in
      let r5 = later r4 (passes refl (may_hand_over-one p dp)) in
      let r6 = later r5 (hands_over fresh now (p ∷ [], []) refl refl (take_due-one p dp)) in
      let r7 = later r6 (starts c [] refl (has_channel-one p dp)) in
      let r8 = later r7 (unlocks refl refl) in
      let r9 = later r8 (logs warning q refl) in
      let r10 = later r9 (hands_over fresh now (q ∷ [], []) refl refl (take_due-one q dq)) in
      let r11 = later r10 (starts c [] refl (has_channel-one q dq)) in (_, (r11, refl))
