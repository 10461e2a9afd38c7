-- ===== src/Proxy/Logger/Running/Exclusive.antt =====
-- When units of LogMultiplexer do not overlap, no sink is written by two units at once.
use mathlib.Core.List.{Memᴰ}
use mathlib.Core.List.Memᴰ
use mathlib.Core.Path.{subst}
use proxy_channels.Base.{
  ℕ, suc, ◌^◌, ◌<◌, ◌≤◌, ◌≡◌, ◌≢◌, refl, sym, ap, ◌∙◌, inl, inr, ◌⊎◌, List, [], ◌∷◌, ◌++◌, Bool,
  true, false, if◌then◌else◌, length, length-append, append_assoc, arith,
}
use proxy_channels.Utils.LogBuilder.{LogPackage}
use proxy_channels.Proxy.Sink.{wait_job_finish_all_sinks}
use proxy_channels.Proxy.Logger.{SinkEntry, WorkUnit, may_hand_over, is_empty}
use proxy_channels.Proxy.Logger.Running.Conservation.{Inv, idle-Inv, Step-Inv, Reach-free, absent}
use proxy_channels.Proxy.Logger.Running.{
  Logging, idle, Step, logs, ticks, passes, gives_up, hands_over, starts, skips, unlocks, ends,
  Reach,
}

-- No sink stands twice in the list.
abbrev pub AreDistinct : List SinkEntry → Type 0
AreDistinct [] = Unit
AreDistinct (c ∷ cs) = ((d : SinkEntry) → Memᴰ d cs → d.place ≢ c.place) × AreDistinct cs

-- No two units write to the same sink.
abbrev pub AreExclusive : List WorkUnit → Type 0
AreExclusive [] = Unit
AreExclusive (u ∷ us) = ((v : WorkUnit) → Memᴰ v us → v.sink.place ≢ u.sink.place) × AreExclusive us

-- The sinks of the units.
abbrev pub sinks_of : List WorkUnit → List SinkEntry
sinks_of [] = []
sinks_of (u ∷ us) = u.sink ∷ sinks_of us

sinks_of-append : (us vs : List WorkUnit) → sinks_of (us ++ vs) ≡ sinks_of us ++ sinks_of vs
sinks_of-append [] vs = refl
sinks_of-append (u ∷ us) vs = ap (λ l. u.sink ∷ l) (sinks_of-append us vs)

sinks_of-Memᴰ : (v : WorkUnit) (us : List WorkUnit) → Memᴰ v us → Memᴰ v.sink (sinks_of us)
sinks_of-Memᴰ v [] m = elim m [ ]
sinks_of-Memᴰ v (u ∷ us) (Memᴰ.head e) = Memᴰ.head (ap (λ x. x.sink) e)
sinks_of-Memᴰ v (u ∷ us) (Memᴰ.tail m) = Memᴰ.tail (sinks_of-Memᴰ v us m)

sinks_of-length : (us : List WorkUnit) → length (sinks_of us) ≡ length us
sinks_of-length [] = refl
sinks_of-length (u ∷ us) = omega (arith, sinks_of-length us)

AreDistinct-AreExclusive :
    (us : List WorkUnit) (cs : List SinkEntry) → AreDistinct (sinks_of us ++ cs) → AreExclusive us
AreDistinct-AreExclusive [] cs d = tt
AreDistinct-AreExclusive (u ∷ us) cs d = (
  λ v m. d.0 v.sink (Memᴰ.append_left cs (sinks_of-Memᴰ v us m)),
  AreDistinct-AreExclusive us cs d.1,
)

AreDistinct-remove :
    (bs cs : List SinkEntry) (c : SinkEntry) → AreDistinct (bs ++ c ∷ cs) → AreDistinct (bs ++ cs)
AreDistinct-remove [] cs c x = x.1
AreDistinct-remove (b ∷ bs) cs c x = (λ v m. x.0 v (inside m), AreDistinct-remove bs cs c x.1)
  where
    inside : {v : SinkEntry} → Memᴰ v (bs ++ cs) → Memᴰ v (bs ++ c ∷ cs)
    inside m = elim (Memᴰ.append_cases bs m) [
      | inl a ↦ Memᴰ.append_left (c ∷ cs) a
      | inr b ↦ Memᴰ.append_right bs (Memᴰ.tail b)
    ]

nothing_left : (us : List WorkUnit) → length us ≤ 0 → us ≡ []
nothing_left [] h = refl
nothing_left (u ∷ us) h = absurd (omega arith)

no_room : (us vs : List WorkUnit) (u : WorkUnit) → [] ≡ us ++ u ∷ vs → ⊥
no_room us vs u h = omega (arith, ap length h, length-append {0} us (u ∷ vs))

-- The sinks that the units write to, and those that the loop has not come to.
abbrev pub claimed : Logging → List SinkEntry
claimed s = sinks_of s.writing ++ s.to_start

module _ (sinks : List SinkEntry) where
  -- A unit of LogMultiplexer passes its check only while no other one is behind it: none waits for the
  -- lock, and none holds it.
  abbrev pub IsAlone : {s t : Logging} → Step sinks s t → Type 0
  IsAlone {s} (passes q r) = (s.passed ≡ 0) × (s.locked ≡ false)
  IsAlone _ = Unit

  pub data AloneReach : Logging → Type 0 where
    start : AloneReach idle
    later : {s t : Logging} → AloneReach s → (x : Step sinks s t) → IsAlone x → AloneReach t

  -- The same steps, without what is asked of them.
  abbrev pub reach_of : {s : Logging} → AloneReach s → Reach sinks s
  reach_of AloneReach.start = Reach.start
  reach_of (AloneReach.later r x a) = Reach.later (reach_of r) x

  -- No unit waits for the lock, or one does, and no unit writes and none holds the lock.
  abbrev pub HasTurn : Logging → Type 0
  HasTurn s = (s.passed ≡ 0) ⊎ ((s.passed ≡ 1) × (s.writing ≡ []) × (s.to_start ≡ []))

  pub record Turns (s : Logging) : Type 0 where
    pub turn : HasTurn s
    pub few : length (claimed s) ≤ length sinks
    pub distinct : AreDistinct (claimed s)

  no_jobs :
      (records : List LogPackage) (counter : ℕ) → may_hand_over records counter ≡ true → counter ≡ 0
  unfolding may_hand_over wait_job_finish_all_sinks
  no_jobs records counter h = ground arith

  few_writing : (s : Logging) → length (claimed s) ≤ length sinks → length s.writing ≤ length sinks
  few_writing s h =
      omega (arith, h, length-append {0} (sinks_of s.writing) s.to_start, sinks_of-length s.writing)

  pub nobody_writes : {s : Logging} {n : ℕ} → Turns s → s.passed ≡ suc n → s.writing ≡ []
  nobody_writes i q = elim i.turn [
    | inl none_passed ↦ absurd (omega (arith, q, none_passed))
    | inr quiet ↦ quiet.1
  ]

  only_one : (s : Logging) {n : ℕ} → HasTurn s → s.passed ≡ suc n → n ≡ 0
  only_one s (inl none_passed) q = absurd (omega (arith, q, none_passed))
  only_one s (inr quiet) q = omega (arith, q, quiet.0)

  module _ (distinct : AreDistinct sinks) (few_sinks : length sinks < 2 ^ 64) where
    -- What a list of sinks must be to be claimed.
    abbrev AreFit : List SinkEntry → Type 0
    AreFit l = AreDistinct l × (length l ≤ length sinks)

    fit : {s : Logging} → Turns s → AreFit (claimed s)
    fit i = (i.distinct, i.few)

    AreFit-remove :
        (bs cs : List SinkEntry) (c : SinkEntry) → AreFit (bs ++ c ∷ cs) → AreFit (bs ++ cs)
    AreFit-remove bs cs c f = (
      AreDistinct-remove bs cs c f.0,
      omega (arith, f.1, length-append {0} bs (c ∷ cs), length-append {0} bs cs),
    )

    AreFit-sinks : (b : Bool) → AreFit (if b then [] else sinks)
    AreFit-sinks true = (tt, omega arith)
    AreFit-sinks false = (distinct, omega arith)

    -- In the loop, no unit waits for the lock.
    looping :
        (s : Logging) (c : SinkEntry) (cs : List SinkEntry)
        → HasTurn s
        → s.to_start ≡ c ∷ cs
        → s.passed ≡ 0
    looping s c cs (inl none_passed) e = none_passed
    looping s c cs (inr quiet) e = absurd (absent c cs (sym e ∙ quiet.2))

    Step-Turns :
        {s t : Logging}
        → Reach sinks s
        → Inv sinks s
        → Turns s
        → (x : Step sinks s t) → IsAlone x
        → Turns t
    Step-Turns r v i (logs warning p l) a = record {
      turn = i.turn;
      few = i.few;
      distinct = i.distinct;
    }
    Step-Turns r v i ticks a = record { turn = i.turn; few = i.few; distinct = i.distinct }
    Step-Turns {s} r v i (passes q h) a = record {
      turn = inr (
        omega (arith, a.0),
        nothing_left s.writing
            (omega (arith, no_jobs s.records s.job_counter h, v.counted, few_writing s i.few)),
        Reach-free sinks r a.1,
      );
      few = i.few;
      distinct = i.distinct;
    }
    Step-Turns r v i (gives_up q h) a = record { turn = i.turn; few = i.few; distinct = i.distinct }
    Step-Turns {s} r v i (hands_over fresh now due q l e) a =
        let next = record s {
          passed = 0;
          locked = true;
          to_start = if is_empty due.0 then [] else sinks;
          out = due.0;
          records = due.1;
          handed = s.handed ++ due.0;
        } in
        let same : claimed next ≡ (if is_empty due.0 then [] else sinks) =
          ap (λ us. sinks_of us ++ (if is_empty due.0 then [] else sinks)) (nobody_writes i q) in
        let f = subst AreFit (sym same) (AreFit-sinks (is_empty due.0)) in
        record { turn = inl (only_one s i.turn q); few = f.1; distinct = f.0 }
    Step-Turns {s} r v i (starts c cs e h) a =
        let u : WorkUnit = record { sink = c; records = s.out } in
        let same : claimed s ≡ sinks_of (s.writing ++ u ∷ []) ++ cs =
          ap (λ l. sinks_of s.writing ++ l) e
          ∙ sym (append_assoc (sinks_of s.writing) (c ∷ []) cs)
          ∙ ap (λ l. l ++ cs) (sym (sinks_of-append s.writing (u ∷ []))) in
        let f = subst AreFit same (fit i) in
        record { turn = inl (looping s c cs i.turn e); few = f.1; distinct = f.0 }
    Step-Turns {s} r v i (skips c cs e h) a =
        let f =
          AreFit-remove (sinks_of s.writing) cs c
            (subst (λ l. AreFit (sinks_of s.writing ++ l)) e (fit i)) in
        record { turn = inl (looping s c cs i.turn e); few = f.1; distinct = f.0 }
    Step-Turns r v i (unlocks h e) a = record { turn = i.turn; few = i.few; distinct = i.distinct }
    Step-Turns {s} r v i (ends us vs u w) a =
        let before : claimed s ≡ sinks_of us ++ u.sink ∷ (sinks_of vs ++ s.to_start) =
          ap (λ l. sinks_of l ++ s.to_start) w
          ∙ ap (λ l. l ++ s.to_start) (sinks_of-append us (u ∷ vs))
          ∙ append_assoc (sinks_of us) (u.sink ∷ sinks_of vs) s.to_start in
        let after : sinks_of us ++ (sinks_of vs ++ s.to_start) ≡ sinks_of (us ++ vs) ++ s.to_start =
          sym (append_assoc (sinks_of us) (sinks_of vs) s.to_start)
          ∙ ap (λ l. l ++ s.to_start) (sym (sinks_of-append us vs)) in
        let f = subst AreFit after (
          AreFit-remove (sinks_of us) (sinks_of vs ++ s.to_start) u.sink
            (subst AreFit before (fit i))) in
        record {
          turn = elim i.turn [
            | inl none_passed ↦ inl none_passed
            | inr quiet ↦ absurd (no_room us vs u (sym quiet.1 ∙ w))
          ];
          few = f.1;
          distinct = f.0;
        }

    AloneReach-Inv : {s : Logging} → AloneReach s → Inv sinks s
    AloneReach-Inv start = idle-Inv sinks
    AloneReach-Inv (later r x a) = Step-Inv sinks (AloneReach-Inv r) x

    pub AloneReach-Turns : {s : Logging} → AloneReach s → Turns s
    AloneReach-Turns start = record { turn = inl refl; few = omega arith; distinct = tt }
    AloneReach-Turns (later r x a) =
        Step-Turns (reach_of r) (AloneReach-Inv r) (AloneReach-Turns r) x a

    -- Let the sinks be fewer than 2^64 and stand at places of their own, and let no unit of
    -- LogMultiplexer pass its check while another is between its check and its return. Then no two units
    -- that write are for one sink.
    pub AloneReach-AreExclusive : {s : Logging} → AloneReach s → AreExclusive s.writing
    AloneReach-AreExclusive {s} r =
        AreDistinct-AreExclusive s.writing s.to_start (AloneReach-Turns r).distinct
