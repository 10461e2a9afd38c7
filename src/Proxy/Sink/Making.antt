-- ===== src/Proxy/Sink/Making.antt =====
-- How the logger gets its sinks: CSink::MakeSink (proxy/sink.cpp) and CLogger::CreateSinks
-- (proxy/logger.cpp). Members that a constructor does not set are those of an argument.
use proxy_channels.Base.{
  List, [], ◌∷◌, ◌++◌, Bytes, codes, bytes_eq, if◌then◌else◌, Option, none, some,
}
use proxy_channels.Base.Int.{ℤ, to_signed, to_word}
use proxy_channels.Utils.LogBuilder.{Severity, string_to_severity}
use proxy_channels.Proxy.Actor.Names.{enum_from_string}
use proxy_channels.Proxy.Sink.{FileSink, Format, make_file_sink, is_empty}

-- ESinkType
pub data SinkType : Type 0 where
  unknown_sink console_sink file_sink : SinkType

unfoldable pub sink_type_name : SinkType → Bytes
sink_type_name unknown_sink = codes "UNKNOWN_SINK"
sink_type_name console_sink = codes "CONSOLE_SINK"
sink_type_name file_sink = codes "FILE_SINK"

pub record ConsoleSink : Type 0 where
  pub severity : Severity
  pub channel : ℤ

pub data AnySink : Type 0 where
  file : FileSink → AnySink
  console : ConsoleSink → AnySink

-- A child of "sinks": its tag, and the names and values of its children.
pub record SinkNode : Type 0 where
  pub tag : Bytes
  pub values : List (Bytes × Bytes)

-- get("type", "")
unfoldable pub type_of : List (Bytes × Bytes) → Bytes
type_of [] = []
type_of (v ∷ vs) = let rest = type_of vs in if bytes_eq v.0 (codes "type") then v.1 else rest

module _ (fm : Format) where
  -- CSink::SetProperty of a console sink
  unfoldable pub console_set_property : Bytes → Bytes → ConsoleSink → ConsoleSink
  console_set_property name value s =
      if bytes_eq name (codes "severity")
      then record s { severity = string_to_severity fm.to_upper value }
      else if bytes_eq name (codes "channel")
      then record s { channel = to_signed 8 (to_word 8 (fm.stoi value)) }
      else s

  unfoldable pub make_console_sink : List (Bytes × Bytes) → ConsoleSink → ConsoleSink
  unfolding console_set_property
  make_console_sink [] s = s
  make_console_sink (v ∷ vs) s = make_console_sink vs (console_set_property v.0 v.1 s)

  module _ (trim : Bytes → Bytes) (unset : SinkType) (new_file : FileSink)
      (new_console : ConsoleSink) where
    unfoldable pub make_sink : Bytes → List (Bytes × Bytes) → Option AnySink
    unfolding enum_from_string sink_type_name make_console_sink
    make_sink type values =
        elim (enum_from_string sink_type_name (unknown_sink ∷ console_sink ∷ file_sink ∷ []) unset
          (trim (fm.to_upper type))) [
            | unknown_sink ↦ none
            | console_sink ↦ some (console (make_console_sink values new_console))
            | file_sink ↦ some (file (make_file_sink fm values new_file))
          ]

    unfoldable pub create_sinks : List SinkNode → List AnySink
    unfolding make_sink type_of is_empty
    create_sinks [] = []
    create_sinks (node ∷ nodes) =
        let rest = create_sinks nodes in
        let made : List AnySink = elim (make_sink (type_of node.values) node.values) [
          | none ↦ []
          | some s ↦ s ∷ []
        ] in
        if bytes_eq node.tag (codes "sink")
        then if is_empty (type_of node.values) then rest else made ++ rest
        else rest

-- CSink::Channel
abbrev pub sink_channel : AnySink → ℤ
sink_channel (file s) = s.channel
sink_channel (console s) = s.channel
