-- ===== src/LogClient/Instance.antt =====
-- The one client: CLogClient::Get, ReadConfiguration and LoggingMode. What the file system and
-- Boost.PropertyTree give of proxy.xml is an argument.
use proxy_channels.Base.{ℕ, [], Bool, Option, none, some, Result, ok}
use proxy_channels.Base.Int.{ℤ}
use proxy_channels.Base.Settings.{PropertyTree}
use proxy_channels.Oscar.Endian.{Endian}
use proxy_channels.Utils.Timestamp.{Timespec}
use proxy_channels.Utils.LogBuilder.{LoggingMode}
use proxy_channels.LogClient.{Client}
use proxy_channels.LogClient.Session.{
  Settings, Session, Attempt, Made, constructed, threw, construct,
}

unfoldable pub logging_mode : Client → LoggingMode
logging_mode s = s.logging_mode

unfoldable pub set_logging_mode : LoggingMode → Client → Client
set_logging_mode mode s = record s { logging_mode = mode }

-- proxy.xml: not there, not readable, or read, with "proxy.logger.client" if the tree has it.
pub data ConfigFile : Type 0 where
  not_there not_readable : ConfigFile
  holds : Option PropertyTree → ConfigFile

-- `none` is the exception. Without the file the tree is empty.
unfoldable pub read_configuration : ConfigFile → Option PropertyTree
read_configuration not_there = some (λ path. none)
read_configuration not_readable = none
read_configuration (holds tree) = tree

-- What Get leaves in s_logClientPtr, which stays null after an exception, and what it starts.
module _ (e : Endian) (debug : Bool) (now : Timespec) (channel : ℤ)
    (settings_of : PropertyTree → Settings) (connect : ℕ → Attempt) where
  unfoldable pub get : ℕ → ConfigFile → Option Session → Result Made
  unfolding read_configuration construct
  get fuel file (some s) = ok (constructed s [])
  get fuel file none = elim (read_configuration file) [
    | none ↦ ok (threw [])
    | some pt ↦ construct e debug now channel fuel connect (settings_of pt)
  ]
