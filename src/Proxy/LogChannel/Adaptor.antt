-- ===== src/Proxy/LogChannel/Adaptor.antt =====
-- The life of the log adaptors (proxy/log_adaptor.cpp, proxy/oscar_logger_adapter.cpp,
-- proxy/etf_logger_adapter.cpp and proxy/stream_logger_adapter.cpp): the constructors, Start, Stop and
-- what an adaptor makes of a message.
use proxy_channels.Base.{
  ℕ, List, [], ◌∷◌, ◌++◌, Bytes, codes, Bool, true, false, if◌then◌else◌, Option, none, some,
  Result, ok, ◌>>=◌,
}
use proxy_channels.Base.Int.{pos}
use proxy_channels.Base.Settings.{PropertyTree, get_string}
use proxy_channels.Oscar.Endian.{Endian}
use proxy_channels.Utils.Timestamp.{Timespec}
use proxy_channels.Utils.LogBuilder.{
  LogPackage, message_command, severity_id, string_to_severity, log_unknown_channel,
}
use proxy_channels.Proxy.Actor.{NetProtocol}
use proxy_channels.Proxy.LogChannel.{LogChannel, to_log, etf_do_log}
use proxy_channels.Proxy.OscarAdaptor
use proxy_channels.Proxy.StreamLogger
use proxy_channels.Proxy.StreamLogger.{Work}

-- `is_connected` tells whether DoLog is connected to m_sigOutputMessage.
pub record LogAdaptor : Type 0 where
  pub tag : Bytes
  pub id : Bytes
  pub protocol : NetProtocol
  pub channels : List LogChannel
  pub is_connected : Bool

-- `convert` is ConvertProtocolName2Id; a missing name or id throws, which is `none`.
module _ (convert : Bytes → NetProtocol) where
  unfoldable pub make_log_adaptor : Bytes → PropertyTree → List LogChannel → Option LogAdaptor
  make_log_adaptor protocol pt channels = elim (pt (codes "name")) [
    | none ↦ none
    | some name ↦ elim (pt (codes "id")) [
      | none ↦ none
      | some id ↦ some (record {
        tag = name;
        id = id;
        protocol = convert (get_string pt (codes "protocol") protocol);
        channels = channels;
        is_connected = true;
      })
    ]
  ]

  unfoldable pub make_oscar_adaptor : PropertyTree → List LogChannel → Option LogAdaptor
  unfolding make_log_adaptor
  make_oscar_adaptor pt channels = make_log_adaptor (codes "PROTO_OSCAR") pt channels

  unfoldable pub make_etf_adaptor : PropertyTree → List LogChannel → Option LogAdaptor
  unfolding make_log_adaptor
  make_etf_adaptor pt channels = make_log_adaptor (codes "PROTO_ETFLOG") pt channels

  unfoldable pub make_stream_adaptor : PropertyTree → List LogChannel → Option LogAdaptor
  unfolding make_log_adaptor
  make_stream_adaptor pt channels = make_log_adaptor (codes "PROTO_STREAM") pt channels

-- m_package of the adaptor of streams. `to_upper` is Boost's.
unfoldable pub make_package : (Bytes → Bytes) → PropertyTree → LogPackage
make_package to_upper pt = record {
  message = [];
  tag = get_string pt (codes "tag") [];
  timestamp = record { tv_sec = pos 0; tv_nsec = pos 0 };
  command = message_command;
  severity =
      severity_id (string_to_severity to_upper (get_string pt (codes "severity") (codes "DEBUG")));
  lchannel = log_unknown_channel;
}

-- Start does nothing; Stop disconnects the slots.
unfoldable pub oscar_start : LogAdaptor → LogAdaptor
oscar_start a = a

unfoldable pub oscar_stop : LogAdaptor → LogAdaptor
oscar_stop a = record a { is_connected = false }

unfoldable pub etf_start : LogAdaptor → LogAdaptor
etf_start a = a

unfoldable pub etf_stop : LogAdaptor → LogAdaptor
etf_stop a = record a { is_connected = false }

unfoldable pub stream_start : LogAdaptor → LogAdaptor
stream_start a = a

unfoldable pub stream_stop : LogAdaptor → LogAdaptor
stream_stop a = record a { is_connected = false }

module _ (erase_all_regex : Bytes → Bytes → Option Bytes) where
  -- m_toLog with what DoLog made, and what the logger gets of it.
  unfoldable pub hand_on : LogAdaptor → Option LogPackage → List LogPackage
  hand_on a none = []
  hand_on a (some p) = to_log erase_all_regex a.channels p

  -- A message at m_sigOutputMessage.
  unfoldable pub oscar_output : Endian → ℕ → ℕ → LogAdaptor → Bytes → Result (List LogPackage)
  unfolding hand_on
  oscar_output e fuel unset a msg =
      let logged : Result (List LogPackage) = (do
        p ← OscarAdaptor.do_log e fuel unset a.protocol msg
        ok (hand_on a p)) in
      if a.is_connected then logged else ok []

  unfoldable pub etf_output : LogAdaptor → Timespec → Bytes → Result (List LogPackage)
  unfolding hand_on
  etf_output a now msg =
      let logged : Result (List LogPackage) = (do
        p ← etf_do_log a.protocol now msg
        ok (hand_on a p)) in
      if a.is_connected then logged else ok []

  unfoldable pub hand_on_all : LogAdaptor → List LogPackage → List LogPackage
  unfolding hand_on
  hand_on_all a [] = []
  hand_on_all a (p ∷ ps) = hand_on a (some p) ++ hand_on_all a ps

  unfoldable pub stream_output :
      (Bytes → Bytes) → LogPackage → LogAdaptor → Timespec → Bytes → Work → List LogPackage × Work
  unfolding hand_on_all
  stream_output trim_right template a now msg w =
      let done = StreamLogger.do_log trim_right template a.protocol now msg w in
      if a.is_connected then (hand_on_all a done.0, done.1) else ([], w)
