-- ===== src/Utils/LogBuilder/Statement.antt =====
-- A log statement (CLogMessageBuilder of utils/logbuilder.h and logbuilder.cpp): the builder is made,
-- texts are streamed into it, and its destructor hands the package to the sender. The text that
-- std::ostringstream makes of a value is given.
use mathlib.Core.Path.{subst}
use proxy_channels.Base.{
  ℕ, ◌≤◌, ◌≡◌, refl, sym, ap, ◌∙◌, List, [], ◌∷◌, ◌++◌, append_assoc, append-nil, Bytes, length,
  take,
}
use proxy_channels.Base.Int.{ℤ}
use proxy_channels.Utils.Timestamp.{Timespec}
use proxy_channels.Utils.LogBuilder.{
  Severity, severity_id, LogPackage, message_command, init, finish, builder_bounds,
}

pub record Builder : Type 0 where
  pub log_package : LogPackage
  pub oss : Bytes

-- s_logChannel
unfoldable pub set_logging_channel : ℤ → ℤ → ℤ
set_logging_channel ch log_channel = ch

unfoldable pub get_logging_channel : ℤ → ℤ
get_logging_channel log_channel = log_channel

-- The constructor, at a time and a logging channel.
unfoldable pub make_builder : ℕ → Timespec → ℤ → Severity → Bytes → Builder
unfolding init
make_builder tag_size now log_channel sev tag = record {
  log_package = init tag_size now log_channel sev tag;
  oss = [];
}

-- operator<<
unfoldable pub stream_text : Bytes → Builder → Builder
stream_text text b = record b { oss = b.oss ++ text }

unfoldable pub stream_texts : List Bytes → Builder → Builder
unfolding stream_text
stream_texts [] b = b
stream_texts (t ∷ ts) b = stream_texts ts (stream_text t b)

-- What the sender gets.
unfoldable pub destroy : ℕ → Builder → LogPackage
unfolding finish
destroy max_message_size b = finish max_message_size b.oss b.log_package

abbrev pub concat : List Bytes → Bytes
concat [] = []
concat (t ∷ ts) = t ++ concat ts

stream_texts-concat :
    (ts : List Bytes) (b : Builder) → stream_texts ts b ≡ record b { oss = b.oss ++ concat ts }
unfolding stream_texts
stream_texts-concat [] b = ap (λ o. record b { oss = o }) (sym (append-nil b.oss))
stream_texts-concat (t ∷ ts) b =
    stream_texts-concat ts (stream_text t b)
    ∙ ap (λ o. record b { oss = o }) (append_assoc b.oss t (concat ts))

module _ (tag_size max_size : ℕ) (now : Timespec) (channel : ℤ) (sev : Severity) (tag : Bytes) where
  -- A message with all that the builder was given.
  abbrev pub Carries : Bytes → LogPackage → Type 0
  Carries text p =
      (p.timestamp ≡ now)
      × (p.command ≡ message_command)
      × (p.severity ≡ severity_id sev)
      × (p.lchannel ≡ channel)
      × (length p.tag ≡ tag_size)
      × (take (length tag) p.tag ≡ take tag_size tag)
      × (length p.message ≤ max_size)
      × (p.message ≡ take max_size text)

  -- A log statement of some texts reaches the sender as a message with the time, the channel and the
  -- severity it was made with; its tag has the set size and begins with the given one as far as that
  -- goes, and its message is the texts one behind the other, up to the set size.
  pub destroy-stream_texts :
      (ts : List Bytes)
      → Carries
          (concat ts)
          (destroy max_size (stream_texts ts (make_builder tag_size now channel sev tag)))
  unfolding destroy make_builder
  destroy-stream_texts ts =
      let b = make_builder tag_size now channel sev tag in
      let bounds = builder_bounds tag_size max_size now channel sev tag (concat ts) in
      subst (λ c. Carries (concat ts) (destroy max_size c)) (sym (stream_texts-concat ts b))
        (refl, refl, refl, refl, bounds.0, bounds.1, bounds.2, bounds.3)
