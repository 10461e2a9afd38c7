-- ===== src/Proxy/LogChannel/Delivery.antt =====
-- Packages that pass a log channel are never skipped by the logger, and what an ETF packet becomes.
use proxy_channels.Base.{
  ℕ, ◌+◌, ◌<◌, ◌≡◌, refl, ap, ◌∙◌, List, [], ◌∷◌, ◌++◌, Bytes, codes, false, Option, some, ok,
  Bool-cases, inl, inr, arith, bytes_eq_refl, length,
}
use proxy_channels.Base.Int.{eqb_ℤ}
use proxy_channels.Oscar.Endian.{object_bytes}
use proxy_channels.Oscar.Memory.{read}
use proxy_channels.Utils.Timestamp.{Timespec}
use proxy_channels.Utils.LogBuilder.{
  LogPackage, message_command, log_unknown_channel, log_client_channel,
}
use proxy_channels.Proxy.Actor.{etflog}
use proxy_channels.Proxy.Logger.{insert, push}
use proxy_channels.Proxy.LogChannel.{
  LogChannel, transfer_log_message, to_log, etf_fields, etf_package, etf_do_log,
}

module _ (erase_all_regex : Bytes → Bytes → Option Bytes) where
  unfoldable pub push_all : LogPackage → List LogPackage → List LogPackage → List LogPackage
  push_all warning [] records = records
  push_all warning (p ∷ ps) records = push_all warning ps (push warning p records)

  unfoldable pub insert_all : List LogPackage → List LogPackage → List LogPackage
  insert_all [] records = records
  insert_all (p ∷ ps) records = insert_all ps (insert p records)

  -- The channels of an adaptor have known numbers.
  abbrev pub AreKnown : List LogChannel → Type 0
  AreKnown [] = Unit
  AreKnown (c ∷ cs) = (eqb_ℤ c.channel log_unknown_channel ≡ false) × AreKnown cs

  push-transfer :
      (warning msg : LogPackage) (c : LogChannel) (records : List LogPackage)
      → eqb_ℤ c.channel log_unknown_channel ≡ false
      → let p = transfer_log_message erase_all_regex c msg in
        push warning p records ≡ insert p records
  unfolding push transfer_log_message
  push-transfer warning msg c records h =
      elim (Bool-cases (eqb_ℤ msg.lchannel log_unknown_channel)) [
        | inl e ↦ rw (e, h) refl
        | inr e ↦ rw (e, e) refl
      ]

  -- If the channels of an adaptor are not the unknown one, the logger inserts one record for each, and
  -- none is replaced by a warning.
  pub to_log-push_all :
      (warning msg : LogPackage) (cs : List LogChannel) (records : List LogPackage)
      → AreKnown cs
      → let ps = to_log erase_all_regex cs msg in
        push_all warning ps records ≡ insert_all ps records
  unfolding to_log push_all insert_all
  to_log-push_all warning msg [] records k = refl
  to_log-push_all warning msg (c ∷ cs) records k =
      ap (push_all warning (to_log erase_all_regex cs msg))
        (push-transfer warning msg c records k.0)
      ∙ to_log-push_all warning msg cs (insert (transfer_log_message erase_all_regex c msg) records)
          k.1

-- A packet of the ETF log protocol.
unfoldable pub etf_packet : ℕ → ℕ → ℕ → ℕ → ℕ → Bytes → Bytes
etf_packet kind severity a b c text =
    codes "LOG" ++ kind ∷ severity ∷ a ∷ b ∷ c ∷ object_bytes 4 (length text) ++ text

-- For a severity below 255, the adaptor reads back the severity, the module and the text of a packet, the severity one higher
-- and the module followed by a space.
pub etf_do_log-etf_packet :
    (now : Timespec) (kind severity a b c : ℕ) (text : Bytes)
    → severity < 255
    → etf_do_log etflog now (etf_packet kind severity a b c text)
      ≡ ok (
          some (record {
            message = text;
            tag = a ∷ b ∷ c ∷ codes " ";
            timestamp = now;
            command = message_command;
            severity = severity + 1;
            lchannel = log_client_channel;
          }))
unfolding etf_do_log etf_package etf_fields etf_packet read object_bytes
etf_do_log-etf_packet now kind severity a b c text h = ground (arith, bytes_eq_refl (codes "LOG"))
