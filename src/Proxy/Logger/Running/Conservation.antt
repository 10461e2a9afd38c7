-- ===== src/Proxy/Logger/Running/Conservation.antt =====
-- What holds of a logger at work, whatever the order of the steps.
use mathlib.Core.List.{Perm, perm_middle}
use mathlib.Core.List.Perm
use mathlib.Core.Path.{subst}
use proxy_channels.Base.{
  ℕ, ◌+◌, ◌%◌, ◌^◌, ◌≡◌, refl, sym, ap, ◌∙◌, inl, inr, List, [], ◌∷◌, ◌++◌, false, not, length,
  length-append, append_assoc, Bool-cases, arith,
}
use proxy_channels.Base.Int.{eqb_ℤ}
use proxy_channels.Utils.Timestamp.{Timespec}
use proxy_channels.Utils.LogBuilder.{LogPackage, log_unknown_channel}
use proxy_channels.Proxy.Sink.{increment_job_counter, decrement_job_counter}
use proxy_channels.Proxy.Logger.{package_lt, insert, push, SinkEntry, WorkUnit, take_due}
use proxy_channels.Proxy.Logger.Delivery.{IsSorted, insert-IsSorted, split-parts, cutoff}
use proxy_channels.Proxy.Logger.Running.{
  Logging, idle, taken, Step, logs, ticks, passes, gives_up, hands_over, starts, skips, unlocks,
  ends, Reach, start, later,
}

pub insert-perm : (p : LogPackage) (qs : List LogPackage) → Perm (insert p qs) (p ∷ qs)
unfolding insert
insert-perm p [] = Perm.rfl
insert-perm p (q ∷ qs) = elim (Bool-cases (package_lt p q)) [
  | inl lt ↦ rw lt Perm.rfl
  | inr ge ↦ rw ge (Perm.trans (Perm.cons q (insert-perm p qs)) (Perm.swap p q qs))
]

pub push-taken :
    (warning p : LogPackage) (qs : List LogPackage)
    → push warning p qs ≡ insert (taken warning p) qs
unfolding push
push-taken warning p qs = elim (Bool-cases (not (eqb_ℤ p.lchannel log_unknown_channel))) [
  | inl known ↦ rw known refl
  | inr unknown ↦ rw unknown refl
]

decrement-mod : (a b n : ℕ) → b ≡ a + 1 → n ≡ b % 2 ^ 64 → decrement_job_counter n ≡ a % 2 ^ 64
unfolding decrement_job_counter
decrement-mod a b n h k = omega arith

increment-mod : (a b n : ℕ) → b ≡ a + 1 → n ≡ a % 2 ^ 64 → increment_job_counter n ≡ b % 2 ^ 64
unfolding increment_job_counter
increment-mod a b n h k = omega arith

pub ends-length :
    (w us vs : List WorkUnit) (u : WorkUnit) → w ≡ us ++ u ∷ vs → length w ≡ length (us ++ vs) + 1
ends-length w us vs u h =
    omega (arith, ap length h, length-append {0} us (u ∷ vs), length-append {0} us vs)

pub take_due-parts :
    (fresh : LogPackage) (now : Timespec) (records : List LogPackage)
    (due : List LogPackage × List LogPackage)
    → due ≡ take_due fresh now records
    → IsSorted records
    → (due.0 ++ due.1 ≡ records) × IsSorted due.1
take_due-parts fresh now records due e s =
    let parts = split-parts (cutoff fresh now) records s in rw e (parts.0, parts.3)

pub absent : (c : SinkEntry) (cs : List SinkEntry) → c ∷ cs ≡ [] → ⊥
absent c cs q = omega (arith, ap length q)

module _ (sinks : List SinkEntry) where
  pub record Inv (s : Logging) : Type 0 where
    pub counted : s.job_counter ≡ length s.writing % 2 ^ 64
    pub kept : Perm (s.handed ++ s.records) s.inserted
    pub sorted : IsSorted s.records

  pub idle-Inv : Inv idle
  idle-Inv = record { counted = refl; kept = Perm.rfl; sorted = tt }

  pub Step-Inv : {s t : Logging} → Inv s → Step sinks s t → Inv t
  Step-Inv {s} i (logs warning p l) = record {
    counted = i.counted;
    kept = rw (push-taken warning p s.records) (
        Perm.trans (Perm.append_left s.handed (insert-perm (taken warning p) s.records))
          (Perm.trans (perm_middle s.handed s.records) (Perm.cons (taken warning p) i.kept)));
    sorted =
        rw (push-taken warning p s.records) (insert-IsSorted (taken warning p) s.records i.sorted);
  }
  Step-Inv i ticks = record { counted = i.counted; kept = i.kept; sorted = i.sorted }
  Step-Inv i (passes q r) = record { counted = i.counted; kept = i.kept; sorted = i.sorted }
  Step-Inv i (gives_up q r) = record { counted = i.counted; kept = i.kept; sorted = i.sorted }
  Step-Inv {s} i (hands_over fresh now due q l e) =
      let parts = take_due-parts fresh now s.records due e i.sorted in
      record {
        counted = i.counted;
        kept =
            subst (λ l. Perm l s.inserted)
              (sym (append_assoc s.handed due.0 due.1 ∙ ap (λ l. s.handed ++ l) parts.0)) i.kept;
        sorted = parts.1;
      }
  Step-Inv {s} i (starts c cs e h) = record {
    counted =
        increment-mod (length s.writing)
          (length (s.writing ++ record { sink = c; records = s.out } ∷ [])) s.job_counter
          (omega (arith, length-append {0} s.writing (record { sink = c; records = s.out } ∷ [])))
          i.counted;
    kept = i.kept;
    sorted = i.sorted;
  }
  Step-Inv i (skips c cs e h) = record { counted = i.counted; kept = i.kept; sorted = i.sorted }
  Step-Inv i (unlocks h e) = record { counted = i.counted; kept = i.kept; sorted = i.sorted }
  Step-Inv {s} i (ends us vs u w) = record {
    counted =
        decrement-mod (length (us ++ vs)) (length s.writing) s.job_counter
          (ends-length s.writing us vs u w) i.counted;
    kept = i.kept;
    sorted = i.sorted;
  }

  -- In every reachable state, the job counter is the number of units that write, modulo 2^64; the
  -- records handed over and those left are together those inserted, up to order; and those left are
  -- in order.
  pub Reach-Inv : {s : Logging} → Reach sinks s → Inv s
  Reach-Inv start = idle-Inv
  Reach-Inv (later r t) = Step-Inv (Reach-Inv r) t

  -- Without the lock, no unit is in the loop over the sinks.
  pub Reach-free : {s : Logging} → Reach sinks s → s.locked ≡ false → s.to_start ≡ []
  Reach-free start h = refl
  Reach-free (later r (logs warning p l)) h = Reach-free r h
  Reach-free (later r ticks) h = Reach-free r h
  Reach-free (later r (passes q a)) h = Reach-free r h
  Reach-free (later r (gives_up q a)) h = Reach-free r h
  Reach-free (later r (hands_over fresh now due q l e)) h = absurd (cc)
  Reach-free (later r (starts c cs e a)) h = absurd (absent c cs (sym e ∙ Reach-free r h))
  Reach-free (later r (skips c cs e a)) h = absurd (absent c cs (sym e ∙ Reach-free r h))
  Reach-free (later r (unlocks a e)) h = e
  Reach-free (later r (ends us vs u w)) h = Reach-free r h
