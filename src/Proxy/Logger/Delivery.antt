-- ===== src/Proxy/Logger/Delivery.antt =====
-- What the multiplexer hands over, and what it keeps.
use proxy_channels.Base.{
  ℕ, zero, suc, ◌+◌, ◌-◌, ◌<◌, ◌≤◌, ◌%◌, ◌^◌, ◌≡◌, refl, sym, ap, inl, inr, List, [], ◌∷◌, ◌++◌,
  Bool, true, false, not, ◌&&◌, length, Bool-cases, arith,
}
use proxy_channels.Base.Int.{negsuc}
use proxy_channels.Utils.Timestamp.{Timespec, timespec_lt, timestamp_adjust}
use proxy_channels.Utils.LogBuilder.{LogPackage}
use proxy_channels.Proxy.Sink.{
  wait_job_finish_all_sinks, increment_job_counter, decrement_job_counter,
}
use proxy_channels.Proxy.Logger.{
  package_lt, insert, split_upper, has_channel, SinkEntry, start_sinks, Multiplexed,
  log_multiplexer, hand_over, may_hand_over, is_empty, log_output_delay,
}

lt-asym : (a b : LogPackage) → package_lt a b ≡ true → package_lt b a ≡ false
unfolding package_lt timespec_lt
lt-asym a b h = ground arith

pub ge_trans :
    (a b c : LogPackage) → package_lt b a ≡ false → package_lt c b ≡ false → package_lt c a ≡ false
unfolding package_lt timespec_lt
ge_trans a b c h k = ground arith

gt_trans :
    (a b c : LogPackage) → package_lt a b ≡ true → package_lt c b ≡ false → package_lt a c ≡ true
unfolding package_lt timespec_lt
gt_trans a b c h k = ground arith

-- No record of the list is earlier than `p`.
abbrev pub AllFrom : LogPackage → List LogPackage → Type 0
AllFrom p [] = Unit
AllFrom p (q ∷ qs) = (package_lt q p ≡ false) × AllFrom p qs

-- Every record of the list is later than `p`, or none is.
abbrev pub AllAfter : LogPackage → List LogPackage → Type 0
AllAfter p [] = Unit
AllAfter p (q ∷ qs) = (package_lt p q ≡ true) × AllAfter p qs

abbrev pub NoneAfter : LogPackage → List LogPackage → Type 0
NoneAfter p [] = Unit
NoneAfter p (q ∷ qs) = (package_lt p q ≡ false) × NoneAfter p qs

abbrev pub IsSorted : List LogPackage → Type 0
IsSorted [] = Unit
IsSorted (q ∷ qs) = AllFrom q qs × IsSorted qs

AllFrom-insert :
    (q p : LogPackage) (qs : List LogPackage)
    → package_lt p q ≡ false
    → AllFrom q qs
    → AllFrom q (insert p qs)
unfolding insert
AllFrom-insert q p [] h f = (h, tt)
AllFrom-insert q p (r ∷ qs) h f = elim (Bool-cases (package_lt p r)) [
  | inl lt ↦ rw lt (h, f)
  | inr ge ↦ rw ge (f.0, AllFrom-insert q p qs h f.1)
]

AllFrom-weaken :
    (p q : LogPackage) (qs : List LogPackage) → package_lt q p ≡ false → AllFrom q qs → AllFrom p qs
AllFrom-weaken p q [] h f = tt
AllFrom-weaken p q (r ∷ qs) h f = (ge_trans p q r h f.0, AllFrom-weaken p q qs h f.1)

-- A record that is inserted leaves the records in the order of their time stamps.
pub insert-IsSorted : (p : LogPackage) (qs : List LogPackage) → IsSorted qs → IsSorted (insert p qs)
unfolding insert
insert-IsSorted p [] s = (tt, tt)
insert-IsSorted p (q ∷ qs) s = elim (Bool-cases (package_lt p q)) [
  | inl lt ↦ rw lt ((lt-asym p q lt, AllFrom-weaken p q qs (lt-asym p q lt) s.0), s)
  | inr ge ↦ rw ge (AllFrom-insert q p qs ge s.0, insert-IsSorted p qs s.1)
]

AllAfter-from :
    (pack q : LogPackage) (qs : List LogPackage)
    → package_lt pack q ≡ true
    → AllFrom q qs
    → AllAfter pack qs
AllAfter-from pack q [] h f = tt
AllAfter-from pack q (r ∷ qs) h f = (gt_trans pack q r h f.0, AllAfter-from pack q qs h f.1)

pub split-parts :
    (pack : LogPackage) (qs : List LogPackage)
    → IsSorted qs
    → let s = split_upper pack qs in
      (s.0 ++ s.1 ≡ qs) × NoneAfter pack s.0 × AllAfter pack s.1 × IsSorted s.1
unfolding split_upper
split-parts pack [] s = (refl, tt, tt, tt)
split-parts pack (q ∷ qs) s = elim (Bool-cases (package_lt pack q)) [
  | inl lt ↦ rw lt (refl, tt, (lt, AllAfter-from pack q qs lt s.0), s)
  | inr ge ↦
      let rest = split-parts pack qs s.1 in
      rw ge (ap (λ l. q ∷ l) rest.0, (ge, rest.1), rest.2, rest.3)
]

-- The package that the multiplexer compares the records with.
abbrev pub cutoff : LogPackage → Timespec → LogPackage
cutoff fresh now = record fresh { timestamp = timestamp_adjust now (negsuc (log_output_delay - 1)) }

pub is_empty-nil : (l : List LogPackage) → is_empty l ≡ true → l ≡ []
unfolding is_empty
is_empty-nil [] h = refl
is_empty-nil (p ∷ l) h = ground arith

module _ (fresh : LogPackage) (now : Timespec) (sinks : List SinkEntry) (records : List LogPackage)
    (counter : ℕ) where
  abbrev pub multiplexed : Multiplexed
  multiplexed = log_multiplexer fresh now sinks records counter

  abbrev due : List LogPackage × List LogPackage
  due = split_upper (cutoff fresh now) records

  abbrev ready : Bool
  ready = wait_job_finish_all_sinks counter && not (is_empty records)

  out-due : ready ≡ true → (multiplexed.out_records ≡ due.0) × (multiplexed.log_records ≡ due.1)
  unfolding log_multiplexer hand_over may_hand_over
  out-due h = elim (Bool-cases (is_empty due.0)) [
    | inl e ↦ rw (h, e) (sym (is_empty-nil due.0 e), refl)
    | inr e ↦ rw (h, e) (refl, refl)
  ]

  out-none : ready ≡ false → (multiplexed.out_records ≡ []) × (multiplexed.log_records ≡ records)
  unfolding log_multiplexer hand_over may_hand_over
  out-none h = rw h (refl, refl)

  -- Of records in order, what goes out followed by what is kept is what was there, and what is kept
  -- is in order.
  pub log_multiplexer-append :
      IsSorted records
      → (multiplexed.out_records ++ multiplexed.log_records ≡ records)
        × IsSorted multiplexed.log_records
  log_multiplexer-append s =
      let parts = split-parts (cutoff fresh now) records s in
      elim (Bool-cases ready) [
        | inl h ↦ rw ((out-due h).0, (out-due h).1) (parts.0, parts.3)
        | inr h ↦ rw ((out-none h).0, (out-none h).1) (refl, s)
      ]

  -- When no job is left and the records are in order, what goes out is not later than the cutoff,
  -- and what is kept is later.
  pub log_multiplexer-AllAfter :
      IsSorted records
      → counter ≡ 0
      → NoneAfter (cutoff fresh now) multiplexed.out_records
        × AllAfter (cutoff fresh now) multiplexed.log_records
  unfolding wait_job_finish_all_sinks
  log_multiplexer-AllAfter s h =
      let parts = split-parts (cutoff fresh now) records s in
      elim (Bool-cases (is_empty records)) [
        | inl e ↦
            let h' : ready ≡ false = rw (h, e) refl in
            rw ((out-none h').0, (out-none h').1, is_empty-nil records e) (tt, tt)
        | inr e ↦
            let h' : ready ≡ true = rw (h, e) refl in
            rw ((out-due h').0, (out-due h').1) (parts.1, parts.2)
      ]

-- The work units of a round, and the job counter.
start_sinks-count :
    (cs : List SinkEntry) (out : List LogPackage) (counter : ℕ)
    → counter + length cs < 2 ^ 64
    → let s = start_sinks cs out counter in (s.1 ≡ counter + length s.0) × (length s.0 ≤ length cs)
unfolding start_sinks increment_job_counter
start_sinks-count [] out counter h = (omega arith, omega arith)
start_sinks-count (c ∷ cs) out counter h = elim (Bool-cases (has_channel c.channel out)) [
  | inl e ↦
      let next : (counter + 1) % 2 ^ 64 ≡ counter + 1 = omega arith in
      let rest = start_sinks-count cs out (counter + 1) (omega arith) in
      rw (e, next) (omega (arith, rest.0), omega (arith, rest.1))
  | inr e ↦
      let rest = start_sinks-count cs out counter (omega arith) in
      rw e (rest.0, omega (arith, rest.1))
]

-- The ends of `n` jobs.
unfoldable pub finish_jobs : ℕ → ℕ → ℕ
finish_jobs zero counter = counter
finish_jobs (suc n) counter = finish_jobs n (decrement_job_counter counter)

finish_jobs-all : (n counter : ℕ) → counter < 2 ^ 64 → n ≡ counter → finish_jobs n counter ≡ 0
unfolding finish_jobs decrement_job_counter
finish_jobs-all zero counter h e = sym e
finish_jobs-all (suc n) counter h e =
    finish_jobs-all n ((counter + 2 ^ 64 - 1) % 2 ^ 64) (omega arith) (omega arith)

-- From a job counter of 0, a round over fewer than 2^64 sinks starts at most one job for each, and
-- when that many jobs have ended the next round may start.
pub start_sinks-finish_jobs :
    (cs : List SinkEntry) (out : List LogPackage)
    → length cs < 2 ^ 64
    → let s = start_sinks cs out 0 in
      (length s.0 ≤ length cs) × (wait_job_finish_all_sinks (finish_jobs (length s.0) s.1) ≡ true)
unfolding wait_job_finish_all_sinks
start_sinks-finish_jobs cs out h =
    let count = start_sinks-count cs out 0 (omega arith) in
    (
      count.1,
      rw
          (finish_jobs-all (length (start_sinks cs out 0).0) (start_sinks cs out 0).1
            (omega (arith, count.0, count.1)) (omega (arith, count.0)))
          refl,
    )
