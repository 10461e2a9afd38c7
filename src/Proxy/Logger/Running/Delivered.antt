-- ===== src/Proxy/Logger/Running/Delivered.antt =====
-- Where the records are that the multiplexer has taken: each sink of their channel has a unit.
use mathlib.Core.List.{Memᴰ, Perm}
use mathlib.Core.List.Memᴰ
use mathlib.Core.Path.{subst}
use proxy_channels.Base.{
  ◌≡◌, refl, sym, ap, ◌∙◌, inl, inr, ◌⊎◌, List, [], ◌∷◌, ◌++◌, Bool, true, false, ◌&&◌, not, ◌||◌,
  append-nil, if◌then◌else◌, arith,
}
use proxy_channels.Base.Int.{ℤ, eqb_ℤ}
use proxy_channels.Utils.LogBuilder.{LogPackage}
use proxy_channels.Proxy.Logger.{has_channel, SinkEntry, WorkUnit, is_empty}
use proxy_channels.Proxy.Logger.Delivery.{is_empty-nil}
use proxy_channels.Proxy.Logger.Running.Conservation.{Reach-Inv, Reach-free}
use proxy_channels.Proxy.Logger.Running.{
  Logging, queue_is_empty, Step, logs, ticks, passes, gives_up, hands_over, starts, skips, unlocks,
  ends, Reach, start, later,
}

-- A unit that writes a record to a sink.
abbrev pub Writes : LogPackage → SinkEntry → WorkUnit → Type 0
Writes p k u = (u.sink ≡ k) × Memᴰ p u.records

eqb_self : (c : ℤ) → eqb_ℤ c c ≡ true
eqb_self c = ground arith

or_true : (b : Bool) → (b || true) ≡ true
or_true b = ground arith

has_channel-Memᴰ :
    (p : LogPackage) (out : List LogPackage) → Memᴰ p out → has_channel p.lchannel out ≡ true
unfolding has_channel
has_channel-Memᴰ p [] m = elim m [ ]
has_channel-Memᴰ p (q ∷ out) (Memᴰ.head e) = rw (sym e, eqb_self p.lchannel) refl
has_channel-Memᴰ p (q ∷ out) (Memᴰ.tail m) =
    ap (λ b. eqb_ℤ q.lchannel p.lchannel || b) (has_channel-Memᴰ p out m)
    ∙ or_true (eqb_ℤ q.lchannel p.lchannel)

-- A sink whose channel no record has is not one of a record.
not_skipped :
    (p : LogPackage) (k : SinkEntry) (out : List LogPackage)
    → Memᴰ p out
    → p.lchannel ≡ k.channel
    → has_channel k.channel out ≡ false
    → ⊥
not_skipped p k out m e h =
    let found : has_channel k.channel out ≡ true =
      ap (λ c. has_channel c out) (sym e) ∙ has_channel-Memᴰ p out m in
    cc

all_sinks :
    (p : LogPackage) (due : List LogPackage) (sinks : List SinkEntry)
    → Memᴰ p due
    → sinks ≡ (if is_empty due then [] else sinks)
unfolding is_empty
all_sinks p [] sinks m = elim m [ ]
all_sinks p (q ∷ due) sinks m = refl

module _ (sinks : List SinkEntry) where
  -- A sink has a unit that writes the record or has written it.
  abbrev pub IsDelivered : Logging → LogPackage → SinkEntry → Type 0
  IsDelivered s p k = (u : WorkUnit) × ((Memᴰ u s.writing ⊎ Memᴰ u s.ended) × Writes p k u)

  -- Each record that was handed over is delivered to each sink of its channel.
  abbrev pub AllDelivered : Logging → Type 0
  AllDelivered s =
      (p : LogPackage) (k : SinkEntry)
      → Memᴰ p s.handed
      → Memᴰ k sinks
      → p.lchannel ≡ k.channel
      → IsDelivered s p k

  -- A unit that holds the lock has the record in hand, and comes to the sink.
  abbrev pub IsInHand : Logging → LogPackage → SinkEntry → Type 0
  IsInHand s p k = Memᴰ p s.out × Memᴰ k s.to_start

  abbrev pub AllUnderWay : Logging → Type 0
  AllUnderWay s =
      (p : LogPackage) (k : SinkEntry)
      → Memᴰ p s.handed
      → Memᴰ k sinks
      → p.lchannel ≡ k.channel
      → IsDelivered s p k ⊎ IsInHand s p k

  nothing_in_hand :
      (s : Logging) (p : LogPackage) (k : SinkEntry) → s.to_start ≡ [] → IsInHand s p k → ⊥
  nothing_in_hand s p k e (m, n) = elim (subst (Memᴰ k) e n) [ ]

  Memᴰ-ends :
      (us vs : List WorkUnit) (u v : WorkUnit) (w : List WorkUnit)
      → w ≡ us ++ u ∷ vs
      → (old : List WorkUnit) → Memᴰ v w ⊎ Memᴰ v old
      → Memᴰ v (us ++ vs) ⊎ Memᴰ v (old ++ u ∷ [])
  Memᴰ-ends us vs u v w h old (inr m) = inr (Memᴰ.append_left (u ∷ []) m)
  Memᴰ-ends us vs u v w h old (inl m) = elim (Memᴰ.append_cases us (subst (Memᴰ v) h m)) [
    | inl a ↦ inl (Memᴰ.append_left vs a)
    | inr b ↦ elim (Memᴰ.cases_cons b) [
      | inl e ↦ inr (Memᴰ.append_right old (Memᴰ.head e))
      | inr c ↦ inl (Memᴰ.append_right us c)
    ]
  ]

  still_there :
      {u : WorkUnit} {w old : List WorkUnit} (more : List WorkUnit)
      → Memᴰ u w ⊎ Memᴰ u old
      → Memᴰ u (w ++ more) ⊎ Memᴰ u old
  still_there more (inl m) = inl (Memᴰ.append_left more m)
  still_there more (inr m) = inr m

  Step-AllUnderWay :
      {s t : Logging} → Reach sinks s → AllUnderWay s → Step sinks s t → AllUnderWay t
  Step-AllUnderWay r d (logs warning q l) p k m n h = d p k m n h
  Step-AllUnderWay r d ticks p k m n h = d p k m n h
  Step-AllUnderWay r d (passes q a) p k m n h = d p k m n h
  Step-AllUnderWay r d (gives_up q a) p k m n h = d p k m n h
  Step-AllUnderWay {s} r d (hands_over fresh now due q l e) p k m n h =
      elim (Memᴰ.append_cases s.handed m) [
        | inl old ↦ elim (d p k old n h) [
          | inl done ↦ inl done
          | inr hand ↦ absurd (nothing_in_hand s p k (Reach-free sinks r l) hand)
        ]
        | inr new ↦ inr (new, subst (Memᴰ k) (all_sinks p due.0 sinks new) n)
      ]
  Step-AllUnderWay {s} r d (starts c cs e a) p k m n h = elim (d p k m n h) [
    | inl (u, (w, x)) ↦ inl (u, (still_there (record { sink = c; records = s.out } ∷ []) w, x))
    | inr (o, i) ↦ elim (Memᴰ.cases_cons (subst (Memᴰ k) e i)) [
      | inl own ↦ inl (
        record { sink = c; records = s.out },
        (inl (Memᴰ.append_right s.writing (Memᴰ.head refl)), (sym own, o)),
      )
      | inr other ↦ inr (o, other)
    ]
  ]
  Step-AllUnderWay {s} r d (skips c cs e a) p k m n h = elim (d p k m n h) [
    | inl done ↦ inl done
    | inr (o, i) ↦ elim (Memᴰ.cases_cons (subst (Memᴰ k) e i)) [
      | inl own ↦ absurd (not_skipped p c s.out o (h ∙ ap (λ x. x.channel) own) a)
      | inr other ↦ inr (o, other)
    ]
  ]
  Step-AllUnderWay {s} r d (unlocks a e) p k m n h = elim (d p k m n h) [
    | inl done ↦ inl done
    | inr hand ↦ absurd (nothing_in_hand s p k e hand)
  ]
  Step-AllUnderWay {s} r d (ends us vs u w) p k m n h = elim (d p k m n h) [
    | inl (v, (x, c)) ↦ inl (v, (Memᴰ-ends us vs u v s.writing w s.ended x, c))
    | inr hand ↦ inr hand
  ]

  -- In every reachable state, each record that was handed over has, for each sink of its channel, a
  -- unit that writes it or has ended, or is in the hands of a unit that comes to the sink.
  pub Reach-AllUnderWay : {s : Logging} → Reach sinks s → AllUnderWay s
  Reach-AllUnderWay start = λ p k m n h. elim m [ ]
  Reach-AllUnderWay (later r t) = Step-AllUnderWay r (Reach-AllUnderWay r) t

  pub lock_free : (b c : Bool) → (not b && c) ≡ true → (b ≡ false) × (c ≡ true)
  lock_free b c h = ground arith

  -- When `Stop` has found the queue empty, in a reachable state, every record that was inserted was
  -- handed over, once; and each has, for each sink of its channel, a unit for that sink which writes it
  -- or has ended.
  pub queue_is_empty-AllDelivered :
      {s : Logging}
      → Reach sinks s
      → queue_is_empty s ≡ true
      → Perm s.handed s.inserted × AllDelivered s
  unfolding queue_is_empty
  queue_is_empty-AllDelivered {s} r h =
      let found = lock_free s.locked (is_empty s.records) h in
      (
        subst (λ l. Perm l s.inserted)
            (ap (λ l. s.handed ++ l) (is_empty-nil s.records found.1) ∙ append-nil s.handed)
            (Reach-Inv sinks r).kept,
        λ p k m n e. elim (Reach-AllUnderWay r p k m n e) [
          | inl done ↦ done
          | inr hand ↦ absurd (nothing_in_hand s p k (Reach-free sinks r found.0) hand)
        ],
      )
