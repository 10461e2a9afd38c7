-- ===== src/Proxy/Sink/Text.antt =====
-- What a file sink appends to its file when the records are messages.
use proxy_channels.Base.{
  ◌≡◌, refl, sym, ap, ◌∙◌, inl, inr, List, [], ◌∷◌, ◌++◌, Bytes, bytes_eq, bytes_eq_refl, false,
  if◌then◌else◌, Bool-cases, none, some, append_assoc, append-nil,
}
use proxy_channels.Base.Int.{eqb_ℤ}
use proxy_channels.Utils.LogBuilder.{LogPackage, message_command, stop_command}
use proxy_channels.Proxy.Sink.{
  FileSink, Format, Run, is_empty, open_stream, format_line, write_message, write_record,
  write_records, write,
}
use proxy_channels.Proxy.Sink.Batches.{opened, open_stream-none}
use proxy_channels.Proxy.Sink.OwnChannel.{NoStop, of_channel}

-- The text of a file, of what was written to all of them, the last in front.
abbrev pub file_text : Bytes → List (Bytes × Bytes) → Bytes
file_text f [] = []
file_text f (l ∷ ls) =
    let before = file_text f ls in if bytes_eq l.0 f then before ++ l.1 else before

abbrev pub AreMessages : List LogPackage → Type 0
AreMessages [] = Unit
AreMessages (p ∷ ps) = (p.command ≡ message_command) × AreMessages ps

pub AreMessages-NoStop : (ps : List LogPackage) → AreMessages ps → NoStop ps
AreMessages-NoStop [] h = tt
AreMessages-NoStop (p ∷ ps) h = (λ e. apart (sym h.0 ∙ e), AreMessages-NoStop ps h.1)
  where
    apart : message_command ≡ stop_command → ⊥
    apart e = cc

module _ (fm : Format) where
  -- The lines of the records, one behind the other.
  abbrev pub format_lines : List LogPackage → Bytes
  format_lines [] = []
  format_lines (p ∷ ps) = format_line fm p ++ format_lines ps

  write_message-open :
      (p : LogPackage) (r : Run) (f : Bytes)
      → r.sink.open_file ≡ some f
      → write_message fm p r ≡ record r { lines = (f, format_line fm p) ∷ r.lines }
  unfolding write_message
  write_message-open p r f h = rw h refl

  write_record-message :
      (p : LogPackage) (r : Run)
      → p.command ≡ message_command
      → write_record fm p r ≡ (write_message fm p r, false)
  unfolding write_record
  write_record-message p r h = rw h refl

  write_records-file_text :
      (ps : List LogPackage) (r : Run) (f : Bytes)
      → AreMessages ps
      → r.sink.open_file ≡ some f
      → file_text f (write_records fm ps r).lines
        ≡ file_text f r.lines ++ format_lines (of_channel r.sink.channel ps)
  unfolding write_records
  write_records-file_text [] r f m h = sym (append-nil (file_text f r.lines))
  write_records-file_text (p ∷ ps) r f m h = elim (Bool-cases (eqb_ℤ p.lchannel r.sink.channel)) [
    | inl same ↦
        rw (same, write_record-message p r m.0, write_message-open p r f h)
          (write_records-file_text ps (record r { lines = (f, format_line fm p) ∷ r.lines }) f m.1 h
            ∙ rw (bytes_eq_refl f) (append_assoc (file_text f r.lines) (format_line fm p) _))
    | inr other ↦ rw other (write_records-file_text ps r f m.1 h)
  ]

  opened-open_file :
      (s : FileSink)
      → s.open_file ≡ none
      → is_empty s.file_name ≡ false
      → ((open_stream s).open_file ≡ some s.file_name) × ((open_stream s).channel ≡ s.channel)
  opened-open_file s h e = rw (open_stream-none fm s h, e) (refl, refl)

  -- A closed sink with a file name appends to its file, of a batch of messages, the lines of those of
  -- its channel, in their order.
  pub write-file_text :
      (ps : List LogPackage) (r : Run)
      → AreMessages ps
      → r.sink.open_file ≡ none
      → is_empty r.sink.file_name ≡ false
      → file_text r.sink.file_name (write fm ps r).lines
        ≡ file_text r.sink.file_name r.lines ++ format_lines (of_channel r.sink.channel ps)
  unfolding write
  write-file_text ps r m h e =
      let o = opened-open_file r.sink h e in
      write_records-file_text ps (opened fm r) r.sink.file_name m o.0
      ∙ ap (λ c. file_text r.sink.file_name r.lines ++ format_lines (of_channel c ps)) o.1
