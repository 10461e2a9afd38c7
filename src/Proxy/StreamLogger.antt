-- ===== src/Proxy/StreamLogger.antt =====
-- proxy/stream_logger_adapter.cpp: the adaptor that logs each line of a stream of bytes.
pub mod Text
pub mod Lines
use proxy_channels.Base.{
  ℕ, zero, suc, ◌+◌, List, [], ◌∷◌, ◌++◌, Bytes, Bool, true, false, ◌==◌, if◌then◌else◌, Option,
  none, some, length, take, drop,
}
use proxy_channels.Utils.Timestamp.{Timespec}
use proxy_channels.Utils.LogBuilder.{LogPackage}
use proxy_channels.Proxy.Actor.{NetProtocol, stream}

-- SWork
pub record Work : Type 0 where
  pub buffer : Bytes
  pub timestamp : Timespec

-- The packages that went to m_toLog, and the work that is left.
abbrev pub Logged : Type 0
Logged = List LogPackage × Work

unfoldable pub is_empty : Bytes → Bool
is_empty [] = true
is_empty (c ∷ s) = false

-- buffer.find('\n')
unfoldable pub find_newline : Bytes → Option ℕ
find_newline [] = none
find_newline (c ∷ s) =
    let rest = find_newline s in
    if c == 10 then some 0 else elim rest [ some n ↦ some (suc n) | none ↦ none ]

-- `trim_right` is that of Boost.
module _ (trim_right : Bytes → Bytes) (template : LogPackage) where
  unfoldable pub log_string : ℕ → Work → Logged
  unfolding is_empty
  log_string pos w =
      let message = trim_right (take (pos + 1) w.buffer) in
      (
        if is_empty message
            then []
            else record template { message = message; timestamp = w.timestamp } ∷ [],
        record w { buffer = drop (pos + 1) w.buffer },
      )

  -- while (pos != npos); each round takes at least one byte from the buffer
  unfoldable pub log_strings : ℕ → Work → Logged
  log_strings zero w = ([], w)
  log_strings (suc fuel) w = elim (find_newline w.buffer) [
    | none ↦ ([], w)
    | some pos ↦
        let first = log_string pos w in
        let rest = log_strings fuel first.1 in (first.0 ++ rest.0, rest.1)
  ]

  -- The part before the loop: the new bytes, and the line that was begun.
  unfoldable pub take_chunk : Timespec → Bytes → Work → Logged
  unfolding is_empty
  take_chunk now msg w =
      let joined = record w { buffer = w.buffer ++ msg } in
      if is_empty w.buffer
      then ([], record { buffer = msg; timestamp = now })
      else elim (find_newline joined.buffer) [
        | none ↦ ([], joined)
        | some pos ↦
            let first = log_string pos joined in (first.0, record first.1 { timestamp = now })
      ]

  unfoldable pub do_log : NetProtocol → Timespec → Bytes → Work → Logged
  do_log stream now msg w =
      let begun = take_chunk now msg w in
      let rest = log_strings (length begun.1.buffer) begun.1 in (begun.0 ++ rest.0, rest.1)
  do_log proto now msg w = ([], w)
