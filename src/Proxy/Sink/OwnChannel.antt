-- ===== src/Proxy/Sink/OwnChannel.antt =====
-- What a file sink makes of the records of its channel; those of the others it skips.
use proxy_channels.Base.{
  ◌≡◌, ◌≢◌, refl, sym, ap, ◌∙◌, inl, inr, List, [], ◌∷◌, ◌++◌, true, false, if◌then◌else◌,
  Bool-cases, Option-cases, none,
}
use proxy_channels.Base.Int.{ℤ, eqb_ℤ, ltb_ℤ}
use proxy_channels.Utils.LogBuilder.{
  LogPackage, LogCommand, message_command, change_file, stop_command, log_internal_channel,
}
use proxy_channels.Proxy.Sink.{
  FileSink, Format, Run, is_empty, open_stream, close_stream, create_file_name, write_message,
  change_file_name, write_record, write_records, write,
}
use proxy_channels.Proxy.Sink.Batches.{KeepsOpen, opened}

-- The records of a channel.
abbrev pub of_channel : ℤ → List LogPackage → List LogPackage
of_channel c [] = []
of_channel c (p ∷ ps) = let rest = of_channel c ps in if eqb_ℤ p.lchannel c then p ∷ rest else rest

pub of_channel-append :
    (c : ℤ) (xs ys : List LogPackage) → of_channel c (xs ++ ys) ≡ of_channel c xs ++ of_channel c ys
of_channel-append c [] ys = refl
of_channel-append c (p ∷ xs) ys = elim (Bool-cases (eqb_ℤ p.lchannel c)) [
  | inl e ↦ rw e (ap (λ l. p ∷ l) (of_channel-append c xs ys))
  | inr e ↦ rw e (of_channel-append c xs ys)
]

open_stream-channel : (s : FileSink) → (open_stream s).channel ≡ s.channel
unfolding open_stream
open_stream-channel s = elim (Option-cases s.open_file) [
  | inl closed ↦ elim (Bool-cases (is_empty s.file_name)) [
    | inl e ↦ rw (closed, e) refl
    | inr e ↦ rw (closed, e) refl
  ]
  | inr (f, e) ↦ rw e refl
]

close_stream-open_stream : (s : FileSink) → close_stream (open_stream s) ≡ close_stream s
unfolding open_stream close_stream
close_stream-open_stream s = elim (Option-cases s.open_file) [
  | inl closed ↦ elim (Bool-cases (is_empty s.file_name)) [
    | inl e ↦ rw (closed, e) refl
    | inr e ↦ rw (closed, e) refl
  ]
  | inr (f, e) ↦ rw e refl
]

-- No record tells a sink to stop.
abbrev pub NoStop : List LogPackage → Type 0
NoStop [] = Unit
NoStop (p ∷ ps) = (p.command ≢ stop_command) × NoStop ps

pub NoStop-front : (xs ys : List LogPackage) → NoStop (xs ++ ys) → NoStop xs
NoStop-front [] ys h = tt
NoStop-front (p ∷ xs) ys h = (h.0, NoStop-front xs ys h.1)

pub NoStop-back : (xs ys : List LogPackage) → NoStop (xs ++ ys) → NoStop ys
NoStop-back [] ys h = h
NoStop-back (p ∷ xs) ys h = NoStop-back xs ys h.1

module _ (fm : Format) where
  change_file_name-channel :
      (p : LogPackage) (r : Run) → (change_file_name fm p r).sink.channel ≡ r.sink.channel
  unfolding change_file_name close_stream create_file_name
  change_file_name-channel p r =
      let bare = close_stream (record r.sink { prefix = p.message; suffix = p.tag }) in
      open_stream-channel (create_file_name fm bare)

  write_record-channel :
      (p : LogPackage) (r : Run) (c : LogCommand)
      → p.command ≡ c
      → (write_record fm p r).0.sink.channel ≡ r.sink.channel
  unfolding write_record write_message
  write_record-channel p r message_command e = elim (Option-cases r.sink.open_file) [
    | inl closed ↦ rw (e, closed) refl
    | inr (f, o) ↦ rw (e, o) refl
  ]
  write_record-channel p r stop_command e =
      elim (Bool-cases (ltb_ℤ log_internal_channel r.sink.channel)) [
        | inl applies ↦ rw (e, applies) refl
        | inr refused ↦ rw (e, refused) refl
      ]
  write_record-channel p r change_file e =
      elim (Bool-cases (ltb_ℤ log_internal_channel r.sink.channel)) [
        | inl applies ↦ rw (e, applies) (change_file_name-channel p r)
        | inr refused ↦ rw (e, refused) refl
      ]

  write_records-channel :
      (ps : List LogPackage) (r : Run) → (write_records fm ps r).sink.channel ≡ r.sink.channel
  unfolding write_records
  write_records-channel [] r = refl
  write_records-channel (p ∷ ps) r =
      let own = write_record-channel p r p.command refl in
      elim (Bool-cases (eqb_ℤ p.lchannel r.sink.channel)) [
        | inl same ↦ elim (Bool-cases (write_record fm p r).1) [
          | inl stops ↦ rw (same, stops) own
          | inr goes_on ↦
              rw (same, goes_on) (write_records-channel ps (write_record fm p r).0 ∙ own)
        ]
        | inr other ↦ rw other (write_records-channel ps r)
      ]

  write_records-of_channel :
      (ps : List LogPackage) (r : Run) (c : ℤ)
      → r.sink.channel ≡ c
      → write_records fm ps r ≡ write_records fm (of_channel c ps) r
  unfolding write_records
  write_records-of_channel [] r c h = refl
  write_records-of_channel (p ∷ ps) r c h = elim (Bool-cases (eqb_ℤ p.lchannel c)) [
    | inl same ↦
        let same' : eqb_ℤ p.lchannel r.sink.channel ≡ true = rw h same in
        elim (Bool-cases (write_record fm p r).1) [
          | inl stops ↦ rw (same, same', stops) refl
          | inr goes_on ↦
              rw (same, same', goes_on)
                (write_records-of_channel ps (write_record fm p r).0 c
                  (write_record-channel p r p.command refl ∙ h))
        ]
    | inr other ↦
        let other' : eqb_ℤ p.lchannel r.sink.channel ≡ false = rw h other in
        rw (other, other') (write_records-of_channel ps r c h)
  ]

  opened-channel : (r : Run) → (opened fm r).sink.channel ≡ r.sink.channel
  opened-channel r = open_stream-channel r.sink

  pub write-of_channel :
      (ps : List LogPackage) (r : Run) → write fm ps r ≡ write fm (of_channel r.sink.channel ps) r
  unfolding write
  write-of_channel ps r =
      ap (λ (s : Run). record s { sink = close_stream s.sink })
        (write_records-of_channel ps (opened fm r) r.sink.channel (opened-channel r))

  -- Between its batches a sink is closed, and it keeps its channel.
  pub write-channel :
      (ps : List LogPackage) (r : Run) → (write fm ps r).sink.channel ≡ r.sink.channel
  unfolding write close_stream
  write-channel ps r = write_records-channel ps (opened fm r) ∙ opened-channel r

  pub write-closed : (ps : List LogPackage) (r : Run) → (write fm ps r).sink.open_file ≡ none
  unfolding write close_stream
  write-closed ps r = refl

  pub write-nil : (r : Run) → r.sink.open_file ≡ none → write fm [] r ≡ r
  unfolding write write_records close_stream
  write-nil r h =
      ap (λ k. record r { sink = k })
        (close_stream-open_stream r.sink ∙ ap (λ o. record r.sink { open_file = o }) (sym h))

  write_record-goes_on :
      (p : LogPackage) (r : Run) (c : LogCommand)
      → p.command ≡ c
      → c ≢ stop_command
      → (write_record fm p r).1 ≡ false
  unfolding write_record
  write_record-goes_on p r message_command e n = rw e refl
  write_record-goes_on p r stop_command e n = absurd (n refl)
  write_record-goes_on p r change_file e n =
      elim (Bool-cases (ltb_ℤ log_internal_channel r.sink.channel)) [
        | inl applies ↦ rw (e, applies) refl
        | inr refused ↦ rw (e, refused) refl
      ]

  pub NoStop-KeepsOpen : (ps : List LogPackage) (r : Run) → NoStop ps → KeepsOpen fm ps r
  NoStop-KeepsOpen [] r h = tt
  NoStop-KeepsOpen (p ∷ ps) r h = elim (Bool-cases (eqb_ℤ p.lchannel r.sink.channel)) [
    | inl same ↦ rw same (
      write_record-goes_on p r p.command refl h.0,
      NoStop-KeepsOpen ps (write_record fm p r).0 h.1,
    )
    | inr other ↦ rw other (NoStop-KeepsOpen ps r h.1)
  ]
