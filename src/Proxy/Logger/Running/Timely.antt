-- ===== src/Proxy/Logger/Running/Timely.antt =====
-- The order of time in which records are handed over: what LOG_OUTPUT_DELAY_MS is for.
use mathlib.Core.Path.{subst}
use proxy_channels.Base.{◌≡◌, refl, sym, ap, ◌∙◌, List, [], ◌∷◌, ◌++◌, false, append_assoc}
use proxy_channels.Utils.LogBuilder.{LogPackage}
use proxy_channels.Proxy.Logger.{package_lt, insert, SinkEntry}
use proxy_channels.Proxy.Logger.Delivery.{
  IsSorted, insert-IsSorted, AllFrom, NoneAfter, ge_trans, split-parts, cutoff,
}
use proxy_channels.Proxy.Logger.Running.Conservation.{Reach-Inv, push-taken, take_due-parts}
use proxy_channels.Proxy.Logger.Running.{
  Logging, taken, logs, ticks, passes, gives_up, hands_over, starts, skips, unlocks, ends, Reach,
  start, later,
}

-- `p` is not earlier than any record of the list.
abbrev pub NotBefore : LogPackage → List LogPackage → Type 0
NotBefore p [] = Unit
NotBefore p (q ∷ qs) = (package_lt p q ≡ false) × NotBefore p qs

NotBefore-append :
    (p : LogPackage) (xs ys : List LogPackage)
    → NotBefore p xs
    → NotBefore p ys
    → NotBefore p (xs ++ ys)
NotBefore-append p [] ys a b = b
NotBefore-append p (x ∷ xs) ys a b = (a.0, NotBefore-append p xs ys a.1 b)

NotBefore-NoneAfter :
    (p k : LogPackage) (xs : List LogPackage)
    → package_lt p k ≡ false
    → NoneAfter k xs
    → NotBefore p xs
NotBefore-NoneAfter p k [] h n = tt
NotBefore-NoneAfter p k (x ∷ xs) h n = (ge_trans x k p n.0 h, NotBefore-NoneAfter p k xs h n.1)

-- A record that is not earlier than the front of a list is inserted behind that front.
insert-append :
    (p : LogPackage) (xs ys : List LogPackage)
    → NotBefore p xs
    → insert p (xs ++ ys) ≡ xs ++ insert p ys
unfolding insert
insert-append p [] ys h = refl
insert-append p (x ∷ xs) ys h = rw h.0 (ap (λ l. x ∷ l) (insert-append p xs ys h.1))

AllFrom-front : (q : LogPackage) (xs ys : List LogPackage) → AllFrom q (xs ++ ys) → AllFrom q xs
AllFrom-front q [] ys f = tt
AllFrom-front q (x ∷ xs) ys f = (f.0, AllFrom-front q xs ys f.1)

IsSorted-front : (xs ys : List LogPackage) → IsSorted (xs ++ ys) → IsSorted xs
IsSorted-front [] ys s = tt
IsSorted-front (x ∷ xs) ys s = (AllFrom-front x xs ys s.0, IsSorted-front xs ys s.1)

module _ (sinks : List SinkEntry) where
  -- The packages that LogMultiplexer has compared the records with, the last in front.
  abbrev pub cutoffs : {s : Logging} → Reach sinks s → List LogPackage
  cutoffs start = []
  cutoffs (later r (hands_over fresh now due q l e)) = cutoff fresh now ∷ cutoffs r
  cutoffs (later r _) = cutoffs r

  -- No record is logged with a time stamp that is earlier than a cutoff that was used before.
  abbrev pub IsTimely : {s : Logging} → Reach sinks s → Type 0
  IsTimely start = Unit
  IsTimely (later r (logs warning p l)) = NotBefore (taken warning p) (cutoffs r) × IsTimely r
  IsTimely (later r _) = IsTimely r

  -- A record that is not earlier than the cutoffs is not earlier than what was handed over.
  record InTime (s : Logging) (ks : List LogPackage) : Type 0 where
    sorted : IsSorted (s.handed ++ s.records)
    behind : (p : LogPackage) → NotBefore p ks → NotBefore p s.handed

  Reach-InTime : {s : Logging} (r : Reach sinks s) → IsTimely r → InTime s (cutoffs r)
  Reach-InTime start h = record { sorted = tt; behind = λ p n. tt }
  Reach-InTime (later {s} r (logs warning p l)) h =
      let i = Reach-InTime r h.1 in
      let q = taken warning p in
      record {
        sorted =
            subst IsSorted
              (insert-append q s.handed s.records (i.behind q h.0)
                ∙ ap (λ l. s.handed ++ l) (sym (push-taken warning p s.records)))
              (insert-IsSorted q (s.handed ++ s.records) i.sorted);
        behind = i.behind;
      }
  Reach-InTime (later r ticks) h =
      let i = Reach-InTime r h in record { sorted = i.sorted; behind = i.behind }
  Reach-InTime (later r (passes q a)) h =
      let i = Reach-InTime r h in record { sorted = i.sorted; behind = i.behind }
  Reach-InTime (later r (gives_up q a)) h =
      let i = Reach-InTime r h in record { sorted = i.sorted; behind = i.behind }
  Reach-InTime (later r (starts c cs e a)) h =
      let i = Reach-InTime r h in record { sorted = i.sorted; behind = i.behind }
  Reach-InTime (later r (skips c cs e a)) h =
      let i = Reach-InTime r h in record { sorted = i.sorted; behind = i.behind }
  Reach-InTime (later r (unlocks a e)) h =
      let i = Reach-InTime r h in record { sorted = i.sorted; behind = i.behind }
  Reach-InTime (later r (ends us vs u w)) h =
      let i = Reach-InTime r h in record { sorted = i.sorted; behind = i.behind }
  Reach-InTime (later {s} r (hands_over fresh now due q l e)) h =
      let i = Reach-InTime r h in
      let old = (Reach-Inv sinks r).sorted in
      let parts = take_due-parts fresh now s.records due e old in
      let out = (split-parts (cutoff fresh now) s.records old).1 in
      record {
        sorted =
            subst IsSorted
              (ap (λ l. s.handed ++ l) (sym parts.0) ∙ sym (append_assoc s.handed due.0 due.1))
              i.sorted;
        behind = λ p n. NotBefore-append p s.handed due.0 (i.behind p n.1) (
            NotBefore-NoneAfter p (cutoff fresh now) due.0 n.0
              (subst (λ x. NoneAfter (cutoff fresh now) x.0) (sym e) out));
      }

  -- If no record was logged with a time stamp earlier than a cutoff that LogMultiplexer had used
  -- before, then in every reachable state all that was handed over is in the order of the time stamps.
  pub Reach-IsSorted : {s : Logging} (r : Reach sinks s) → IsTimely r → IsSorted s.handed
  Reach-IsSorted {s} r h = IsSorted-front s.handed s.records (Reach-InTime r h).sorted
