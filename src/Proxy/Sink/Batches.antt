-- ===== src/Proxy/Sink/Batches.antt =====
-- The log records reach a file sink in batches: where the batches are cut does not matter.
use proxy_channels.Base.{
  ◌≡◌, refl, sym, ap, ◌∙◌, List, [], ◌∷◌, ◌++◌, true, false, if◌then◌else◌, none, some, Bool-cases,
  Option-cases, inl, inr, arith,
}
use proxy_channels.Base.Int.{ℤ, eqb_ℤ, ltb_ℤ}
use proxy_channels.Utils.LogBuilder.{
  LogPackage, LogCommand, message_command, change_file, stop_command, log_internal_channel,
}
use proxy_channels.Proxy.Sink.{
  FileSink, Format, Run, is_empty, open_stream, close_stream, write_message, change_file_name,
  write_record, write_records, write,
}

true-false : true ≡ false → ⊥
true-false h = ground arith

eqb_ℤ-same : (a b : ℤ) → a ≡ b → eqb_ℤ a b ≡ true
eqb_ℤ-same a b h = rw h (own b)
  where
    own : (c : ℤ) → eqb_ℤ c c ≡ true
    own c = ground arith

module _ (fm : Format) where
  -- No record makes the sink leave its loop.
  abbrev pub KeepsOpen : List LogPackage → Run → Type 0
  KeepsOpen [] r = Unit
  KeepsOpen (p ∷ ps) r =
      if eqb_ℤ p.lchannel r.sink.channel
      then ((write_record fm p r).1 ≡ false) × KeepsOpen ps (write_record fm p r).0
      else KeepsOpen ps r

  write_records-append :
      (xs ys : List LogPackage) (r : Run)
      → KeepsOpen xs r
      → write_records fm (xs ++ ys) r ≡ write_records fm ys (write_records fm xs r)
  unfolding write_records
  write_records-append [] ys r k = refl
  write_records-append (p ∷ xs) ys r k = elim (Bool-cases (eqb_ℤ p.lchannel r.sink.channel)) [
    | inl same ↦
        let k' = rw same at k in
        rw (same, k'.0) (write_records-append xs ys (write_record fm p r).0 k'.1)
    | inr other ↦ rw other (write_records-append xs ys r (rw other at k))
  ]

  -- The stream is open exactly on the file that the sink names.
  abbrev pub IsOpen : FileSink → Type 0
  IsOpen s = s.open_file ≡ (if is_empty s.file_name then none else some s.file_name)

  pub open_stream-none :
      (s : FileSink)
      → s.open_file ≡ none
      → open_stream s
        ≡ (if is_empty s.file_name then s else record s { open_file = some s.file_name })
  unfolding open_stream
  open_stream-none s h = rw h refl

  open_stream-IsOpen : (s : FileSink) → s.open_file ≡ none → IsOpen (open_stream s)
  unfolding open_stream
  open_stream-IsOpen s h = elim (Bool-cases (is_empty s.file_name)) [
    | inl e ↦ rw (open_stream-none s h, e, e, h) refl
    | inr e ↦ rw (open_stream-none s h, e, e) refl
  ]

  open_stream-close_stream : (s : FileSink) → IsOpen s → open_stream (close_stream s) ≡ s
  unfolding open_stream close_stream
  open_stream-close_stream s h = elim (Bool-cases (is_empty s.file_name)) [
    | inl e ↦ rw e (ap (λ o. record s { open_file = o }) (sym (rw e at h)))
    | inr e ↦ rw e (ap (λ o. record s { open_file = o }) (sym (rw e at h)))
  ]

  write_record-IsOpen :
      (p : LogPackage) (r : Run) (c : LogCommand)
      → p.command ≡ c
      → (write_record fm p r).1 ≡ false
      → IsOpen r.sink
      → IsOpen (write_record fm p r).0.sink
  unfolding write_record write_message change_file_name close_stream
  write_record-IsOpen p r message_command e k h = elim (Option-cases r.sink.open_file) [
    | inl closed ↦ rw (e, closed) (rw closed at h)
    | inr f ↦ rw (e, f.1) (rw f.1 at h)
  ]
  write_record-IsOpen p r stop_command e k h =
      elim (Bool-cases (ltb_ℤ log_internal_channel r.sink.channel)) [
        | inl applies ↦ absurd (true-false (rw (e, applies) at k))
        | inr refused ↦ rw (e, refused) h
      ]
  write_record-IsOpen p r change_file e k h =
      elim (Bool-cases (ltb_ℤ log_internal_channel r.sink.channel)) [
        | inl applies ↦ rw (e, applies) (open_stream-IsOpen _ refl)
        | inr refused ↦ rw (e, refused) h
      ]

  write_records-IsOpen :
      (xs : List LogPackage) (r : Run)
      → KeepsOpen xs r
      → IsOpen r.sink
      → IsOpen (write_records fm xs r).sink
  unfolding write_records
  write_records-IsOpen [] r k h = h
  write_records-IsOpen (p ∷ xs) r k h = elim (Bool-cases (eqb_ℤ p.lchannel r.sink.channel)) [
    | inl same ↦
        let k' = rw same at k in
        rw (same, k'.0)
          (write_records-IsOpen xs (write_record fm p r).0 k'.1
            (write_record-IsOpen p r p.command refl k'.0 h))
    | inr other ↦ rw other (write_records-IsOpen xs r (rw other at k) h)
  ]

  abbrev pub opened : Run → Run
  opened r = record r { sink = open_stream r.sink }

  -- From a closed sink, a batch that is cut in two gives the same lines in the same files and the same
  -- sink, if no record of the first half makes the sink leave its loop.
  pub write-append :
      (xs ys : List LogPackage) (r : Run)
      → r.sink.open_file ≡ none
      → KeepsOpen xs (opened r)
      → write fm (xs ++ ys) r ≡ write fm ys (write fm xs r)
  unfolding write
  write-append xs ys r c k =
      let s = write_records fm xs (opened r) in
      rw
        (
          write_records-append xs ys (opened r) k,
          open_stream-close_stream s.sink
              (write_records-IsOpen xs (opened r) k (open_stream-IsOpen r.sink c)),
        )
        refl

  write_record-stops :
      (p : LogPackage) (s : Run)
      → p.command ≡ stop_command
      → ltb_ℤ log_internal_channel s.sink.channel ≡ true
      → write_record fm p s ≡ (record s { sink = record s.sink { file_name = [] } }, true)
  unfolding write_record
  write_record-stops p s e h = rw (e, h) refl

  -- A file sink whose channel is above the internal one gets a batch in which, behind records that do
  -- not make it leave its loop, a record of its channel tells it to stop. It is then as after a `Write`
  -- of what stands before that record, without its file name: whatever stands behind the record is
  -- not written.
  pub write-skipped :
      (xs ys : List LogPackage) (p : LogPackage) (r : Run)
      → KeepsOpen xs (opened r)
      → p.lchannel ≡ (write_records fm xs (opened r)).sink.channel
      → p.command ≡ stop_command
      → ltb_ℤ log_internal_channel (write_records fm xs (opened r)).sink.channel ≡ true
      → let s = write fm xs r in
        write fm (xs ++ p ∷ ys) r ≡ record s { sink = record s.sink { file_name = [] } }
  unfolding write write_records close_stream
  write-skipped xs ys p r k same stop above =
      let s = write_records fm xs (opened r) in
      let stops = write_record-stops p s stop above in
      let ran : write_records fm (xs ++ p ∷ ys) (opened r)
          ≡ record s { sink = record s.sink { file_name = [] } } =
        write_records-append xs (p ∷ ys) (opened r) k
        ∙ rw (eqb_ℤ-same p.lchannel s.sink.channel same, stops) refl in
      let closed : Run → Run = λ t. record t { sink = record t.sink { open_file = none } } in
      ap closed ran
