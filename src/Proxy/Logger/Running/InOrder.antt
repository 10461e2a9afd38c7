-- ===== src/Proxy/Logger/Running/InOrder.antt =====
-- The order in which the units of a sink get the records: that in which they were handed over.
use mathlib.Core.List.{Memᴰ}
use mathlib.Core.List.Memᴰ
use mathlib.Core.Path.{subst}
use proxy_channels.Base.{
  ℕ, ◌^◌, ◌<◌, ◌≡◌, ◌≢◌, ◌==◌, refl, sym, ap, ◌∙◌, inl, inr, List, [], ◌∷◌, ◌++◌, Bool, true, false,
  if◌then◌else◌, Bool-cases, length, append_assoc, append-nil, arith,
}
use proxy_channels.Base.Int.{ℤ, eqb_ℤ}
use proxy_channels.Utils.LogBuilder.{LogPackage}
use proxy_channels.Proxy.Sink.OwnChannel.{of_channel, of_channel-append}
use proxy_channels.Proxy.Logger.{has_channel, SinkEntry, WorkUnit, is_empty}
use proxy_channels.Proxy.Logger.Delivery.{is_empty-nil}
use proxy_channels.Proxy.Logger.Running.Conservation.{Reach-free}
use proxy_channels.Proxy.Logger.Running.{
  Logging, Step, logs, ticks, passes, gives_up, hands_over, starts, skips, unlocks, ends, Reach,
  start, later,
}
use proxy_channels.Proxy.Logger.Running.Exclusive.{
  AreDistinct, AreExclusive, AloneReach, AloneReach-AreExclusive, reach_of,
}

==-eq : (a b : ℕ) → (a == b) ≡ true → a ≡ b
==-eq a b h = ground arith

==-self : (a : ℕ) → (a == a) ≡ true
==-self a = ground arith

-- The records of its channel that the units for a sink get.
abbrev pub written : SinkEntry → List WorkUnit → List LogPackage
written k [] = []
written k (u ∷ us) =
    let rest = written k us in
    if u.sink.place == k.place then of_channel k.channel u.records ++ rest else rest

-- The records of its channel that the loop over the sinks is still to give to a sink.
abbrev pub pending : SinkEntry → List SinkEntry → List LogPackage → List LogPackage
pending k [] out = []
pending k (c ∷ cs) out =
    let rest = pending k cs out in
    if c.place == k.place then of_channel k.channel out ++ rest else rest

written-append :
    (k : SinkEntry) (us vs : List WorkUnit) → written k (us ++ vs) ≡ written k us ++ written k vs
written-append k [] vs = refl
written-append k (u ∷ us) vs = elim (Bool-cases (u.sink.place == k.place)) [
  | inl e ↦ rw e (
      ap (λ l. of_channel k.channel u.records ++ l) (written-append k us vs)
      ∙ sym (append_assoc (of_channel k.channel u.records) _ _))
  | inr e ↦ rw e (written-append k us vs)
]

-- Units for other sinks give nothing to a sink.
written-others :
    (k : SinkEntry) (us : List WorkUnit)
    → ((v : WorkUnit) → Memᴰ v us → v.sink.place ≢ k.place)
    → written k us ≡ []
written-others k [] h = refl
written-others k (u ∷ us) h = elim (Bool-cases (u.sink.place == k.place)) [
  | inl e ↦ absurd (h u (Memᴰ.head refl) (==-eq u.sink.place k.place e))
  | inr e ↦ rw e (written-others k us (λ v m. h v (Memᴰ.tail m)))
]

pending-others :
    (k : SinkEntry) (cs : List SinkEntry) (out : List LogPackage)
    → ((c : SinkEntry) → Memᴰ c cs → c.place ≢ k.place)
    → pending k cs out ≡ []
pending-others k [] out h = refl
pending-others k (c ∷ cs) out h = elim (Bool-cases (c.place == k.place)) [
  | inl e ↦ absurd (h c (Memᴰ.head refl) (==-eq c.place k.place e))
  | inr e ↦ rw e (pending-others k cs out (λ v m. h v (Memᴰ.tail m)))
]

of_channel-none :
    (c : ℤ) (out : List LogPackage) → has_channel c out ≡ false → of_channel c out ≡ []
unfolding has_channel
of_channel-none c [] h = refl
of_channel-none c (p ∷ out) h = elim (Bool-cases (eqb_ℤ p.lchannel c)) [
  | inl e ↦ absurd (ground (arith, h, e))
  | inr e ↦ rw e (of_channel-none c out (rw e at h))
]

-- The loop is to give a sink all the records of its channel, and in their order.
pending-all :
    (cs : List SinkEntry) (out : List LogPackage) (k : SinkEntry)
    → AreDistinct cs
    → Memᴰ k cs
    → pending k cs out ≡ of_channel k.channel out
pending-all [] out k d m = elim m [ ]
pending-all (c ∷ cs) out k d (Memᴰ.head e) =
    let others = pending-others k cs out (λ v n q. d.0 v n (q ∙ ap (λ x. x.place) e)) in
    rw (others, ap (λ x. x.place) (sym e), ==-self k.place) (append-nil (of_channel k.channel out))
pending-all (c ∷ cs) out k d (Memᴰ.tail m) = elim (Bool-cases (c.place == k.place)) [
  | inl e ↦ absurd (d.0 k m (sym (==-eq c.place k.place e)))
  | inr e ↦ rw e (pending-all cs out k d.1 m)
]

same_sink :
    (cs : List SinkEntry) (c k : SinkEntry)
    → AreDistinct cs
    → Memᴰ c cs
    → Memᴰ k cs
    → c.place ≡ k.place
    → c ≡ k
same_sink [] c k d m n e = elim m [ ]
same_sink (b ∷ cs) c k d (Memᴰ.head p) (Memᴰ.head q) e = p ∙ sym q
same_sink (b ∷ cs) c k d (Memᴰ.head p) (Memᴰ.tail n) e =
    absurd (d.0 k n (sym e ∙ ap (λ x. x.place) p))
same_sink (b ∷ cs) c k d (Memᴰ.tail m) (Memᴰ.head q) e = absurd (d.0 c m (e ∙ ap (λ x. x.place) q))
same_sink (b ∷ cs) c k d (Memᴰ.tail m) (Memᴰ.tail n) e = same_sink cs c k d.1 m n e

-- A unit that is started gets what was to be given to its sink.
started_unit :
    (k c : SinkEntry) (cs : List SinkEntry) (out : List LogPackage)
    → written k (record { sink = c; records = out } ∷ []) ++ pending k cs out
      ≡ pending k (c ∷ cs) out
started_unit k c cs out = elim (Bool-cases (c.place == k.place)) [
  | inl e ↦ rw e (ap (λ l. l ++ pending k cs out) (append-nil (of_channel k.channel out)))
  | inr e ↦ rw e refl
]

-- A sink that is skipped has no records of its channel.
skipped_sink :
    (k c : SinkEntry) (cs : List SinkEntry) (out : List LogPackage)
    → (c.place ≡ k.place → c ≡ k)
    → has_channel c.channel out ≡ false
    → pending k (c ∷ cs) out ≡ pending k cs out
skipped_sink k c cs out same h = elim (Bool-cases (c.place == k.place)) [
  | inl e ↦
      let own = ap (λ x. x.channel) (same (==-eq c.place k.place e)) in
      let nothing : of_channel k.channel out ≡ [] =
        of_channel-none k.channel out (subst (λ d. has_channel d out ≡ false) own h) in
      rw (e, nothing) refl
  | inr e ↦ rw e refl
]

-- A unit that ends goes past the others, none of which is for its sink.
written-ends :
    (k : SinkEntry) (us vs : List WorkUnit) (u : WorkUnit)
    → AreExclusive (us ++ u ∷ vs)
    → written k (u ∷ (us ++ vs)) ≡ written k (us ++ u ∷ vs)
written-ends k us vs u x = elim (Bool-cases (u.sink.place == k.place)) [
  | inl e ↦
      let own = ==-eq u.sink.place k.place e in
      rw
        (
          written-append k us vs,
          written-append k us (u ∷ vs),
          written-others k us (λ v m q. front us x v m (q ∙ sym own)),
        )
        refl
  | inr e ↦ rw (e, written-append k us vs, written-append k us (u ∷ vs), e) refl
]
  where
    front :
        (us : List WorkUnit)
        → AreExclusive (us ++ u ∷ vs)
        → (v : WorkUnit) → Memᴰ v us
        → v.sink.place ≢ u.sink.place
    front [] x v m = elim m [ ]
    front (w ∷ us) x v (Memᴰ.head e) =
        λ q. x.0 u (Memᴰ.append_right us (Memᴰ.head refl)) (sym q ∙ ap (λ t. t.sink.place) e)
    front (w ∷ us) x v (Memᴰ.tail m) = front us x.1 v m

module _ (sinks : List SinkEntry) where
  -- What the units of a sink got and what the unit that is in its loop is still to give to it are, in
  -- this order, the records of its channel that were handed over.
  abbrev pub IsInOrder : SinkEntry → Logging → Type 0
  IsInOrder k s =
      written k (s.ended ++ s.writing) ++ pending k s.to_start s.out ≡ of_channel k.channel s.handed

  in_sinks : (k : SinkEntry) (b : Bool) → Memᴰ k (if b then [] else sinks) → Memᴰ k sinks
  in_sinks k true m = elim m [ ]
  in_sinks k false m = m

  -- The loop comes to sinks of the logger only.
  Reach-to_start :
      {s : Logging} → Reach sinks s → (k : SinkEntry) → Memᴰ k s.to_start → Memᴰ k sinks
  Reach-to_start start k m = elim m [ ]
  Reach-to_start (later r (logs warning p l)) k m = Reach-to_start r k m
  Reach-to_start (later r ticks) k m = Reach-to_start r k m
  Reach-to_start (later r (passes q a)) k m = Reach-to_start r k m
  Reach-to_start (later r (gives_up q a)) k m = Reach-to_start r k m
  Reach-to_start (later r (hands_over fresh now due q l e)) k m = in_sinks k (is_empty due.0) m
  Reach-to_start (later r (starts c cs e a)) k m =
      Reach-to_start r k (subst (Memᴰ k) (sym e) (Memᴰ.tail m))
  Reach-to_start (later r (skips c cs e a)) k m =
      Reach-to_start r k (subst (Memᴰ k) (sym e) (Memᴰ.tail m))
  Reach-to_start (later r (unlocks a e)) k m = Reach-to_start r k m
  Reach-to_start (later r (ends us vs u w)) k m = Reach-to_start r k m

  module _ (distinct : AreDistinct sinks) (few_sinks : length sinks < 2 ^ 64) (k : SinkEntry)
      (known : Memᴰ k sinks) where
    to_give :
        (out : List LogPackage)
        → pending k (if is_empty out then [] else sinks) out ≡ of_channel k.channel out
    to_give out = elim (Bool-cases (is_empty out)) [
      | inl e ↦ rw (e, is_empty-nil out e) refl
      | inr e ↦ rw e (pending-all sinks out k distinct known)
    ]

    Step-IsInOrder :
        {s t : Logging} → AloneReach sinks s → IsInOrder k s → Step sinks s t → IsInOrder k t
    Step-IsInOrder r i (logs warning p l) = i
    Step-IsInOrder r i ticks = i
    Step-IsInOrder r i (passes q a) = i
    Step-IsInOrder r i (gives_up q a) = i
    Step-IsInOrder {s} r i (hands_over fresh now due q l e) =
        let none_pending = ap (λ cs. pending k cs s.out) (Reach-free sinks (reach_of sinks r) l) in
        let before : written k (s.ended ++ s.writing) ≡ of_channel k.channel s.handed =
          sym (append-nil (written k (s.ended ++ s.writing)))
          ∙ ap (λ l. written k (s.ended ++ s.writing) ++ l) (sym none_pending)
          ∙ i in
        ap (λ l. written k (s.ended ++ s.writing) ++ l) (to_give due.0)
        ∙ ap (λ l. l ++ of_channel k.channel due.0) before
        ∙ sym (of_channel-append k.channel s.handed due.0)
    Step-IsInOrder {s} r i (starts c cs e h) =
        let u : WorkUnit = record { sink = c; records = s.out } in
        ap (λ l. written k l ++ pending k cs s.out) (sym (append_assoc s.ended s.writing (u ∷ [])))
        ∙ ap (λ l. l ++ pending k cs s.out) (written-append k (s.ended ++ s.writing) (u ∷ []))
        ∙ append_assoc (written k (s.ended ++ s.writing)) (written k (u ∷ [])) (pending k cs s.out)
        ∙ ap (λ l. written k (s.ended ++ s.writing) ++ l)
            (started_unit k c cs s.out ∙ ap (λ l. pending k l s.out) (sym e))
        ∙ i
    Step-IsInOrder {s} r i (skips c cs e h) =
        let own = Reach-to_start (reach_of sinks r) c (subst (Memᴰ c) (sym e) (Memᴰ.head refl)) in
        ap (λ l. written k (s.ended ++ s.writing) ++ l)
          (sym (skipped_sink k c cs s.out (same_sink sinks c k distinct own known) h)
            ∙ ap (λ l. pending k l s.out) (sym e))
        ∙ i
    Step-IsInOrder {s} r i (unlocks h e) =
        ap (λ l. written k (s.ended ++ s.writing) ++ l)
          (ap (λ l. pending k l []) e ∙ ap (λ l. pending k l s.out) (sym e))
        ∙ i
    Step-IsInOrder {s} r i (ends us vs u w) =
        let exclusive = subst AreExclusive w (AloneReach-AreExclusive sinks distinct few_sinks r) in
        let same : written k ((s.ended ++ u ∷ []) ++ (us ++ vs))
            ≡ written k (s.ended ++ s.writing) =
          ap (λ l. written k l) (append_assoc s.ended (u ∷ []) (us ++ vs))
          ∙ written-append k s.ended (u ∷ (us ++ vs))
          ∙ ap (λ l. written k s.ended ++ l)
              (written-ends k us vs u exclusive ∙ ap (λ l. written k l) (sym w))
          ∙ sym (written-append k s.ended s.writing) in
        ap (λ l. l ++ pending k s.to_start s.out) same ∙ i

    -- Let the sinks be fewer than 2^64 and stand at places of their own, and let no unit of
    -- LogMultiplexer pass its check while another is between its check and its return. Then the records
    -- of its channel that the units for a sink got, those that have ended before those that write,
    -- followed by those that a unit in its loop over the sinks is still to give to it, are exactly the
    -- records of the channel that were handed over, and in that order.
    pub AloneReach-IsInOrder : {s : Logging} → AloneReach sinks s → IsInOrder k s
    AloneReach-IsInOrder AloneReach.start = refl
    AloneReach-IsInOrder (AloneReach.later r x a) = Step-IsInOrder r (AloneReach-IsInOrder r) x
