-- ===== src/Proxy/Logger/Instance.antt =====
-- The one logger: CLogger::Get, ReadConfiguration and the constructor (proxy/logger.cpp). What the
-- file system and Boost.PropertyTree give of proxy.xml is an argument.
use proxy_channels.Base.{◌≡◌, refl, List, Bytes, Option, none, some}
use proxy_channels.Proxy.Sink.{Format, FileSink}
use proxy_channels.Proxy.Sink.Making.{AnySink, ConsoleSink, SinkNode, SinkType, create_sinks}

-- The children of "sinks", if the tree has that child.
abbrev pub LoggerTree : Type 0
LoggerTree = Option (List SinkNode)

-- proxy.xml: not there, not readable, or read, with "proxy.logger" if the tree has it.
pub data ConfigFile : Type 0 where
  not_there not_readable : ConfigFile
  holds : Option LoggerTree → ConfigFile

-- `none` is the exception. Without the file the tree is empty.
unfoldable pub read_configuration : ConfigFile → Option LoggerTree
read_configuration not_there = some none
read_configuration not_readable = none
read_configuration (holds tree) = tree

-- m_sinks
pub record Logger : Type 0 where
  pub sinks : List AnySink

module _ (fm : Format) (trim : Bytes → Bytes) (unset : SinkType) (new_file : FileSink)
    (new_console : ConsoleSink) where
  -- get_child throws if there is no "sinks".
  unfoldable pub make_logger : LoggerTree → Option Logger
  make_logger none = none
  make_logger (some nodes) =
      some (record { sinks = create_sinks fm trim unset new_file new_console nodes })

  -- The logger that Get returns, or none for an exception; and s_Logger.
  unfoldable pub get : ConfigFile → Option Logger → Option Logger × Option Logger
  unfolding read_configuration make_logger
  get file (some l) = (some l, some l)
  get file none =
      let made : Option Logger = elim (read_configuration file) [
        | none ↦ none
        | some tree ↦ make_logger tree
      ] in
      (made, made)

  -- A logger that Get has returned is returned by every later call, whatever the file is then.
  pub get-again :
      (file file' : ConfigFile) (s : Option Logger) (l : Logger)
      → (get file s).0 ≡ some l
      → get file' (get file s).1 ≡ (some l, some l)
  unfolding get
  get-again file file' (some k) l h = rw h refl
  get-again file file' none l h = rw h refl
