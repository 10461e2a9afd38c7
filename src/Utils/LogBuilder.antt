-- ===== src/Utils/LogBuilder.antt =====
-- utils/logbuilder.h and logbuilder.cpp: log packages and the builder that fills them. The case
-- conversion of Boost is an argument; so are the sizes of the tag and the message, which the
-- programs set, and the text that was streamed into the builder.
pub mod Statement
use proxy_channels.Base.{
  ℕ, ◌-◌, ◌≤◌, ◌<◌, ◌≡◌, false, [], ◌++◌, Bytes, codes, bytes_eq, ◌||◌, ltb, ◌==◌, if◌then◌else◌,
  length, take, replicate, arith, length-append, length-replicate, length-take, take_all,
  take-length_append,
}
use proxy_channels.Base.Int.{ℤ, pos, negsuc}
use proxy_channels.Utils.Timestamp.{Timespec}

abbrev pub log_unknown_channel : ℤ
log_unknown_channel = negsuc 0

abbrev pub log_internal_channel : ℤ
log_internal_channel = pos 0

abbrev pub log_client_channel : ℤ
log_client_channel = pos 3

pub data Severity : Type 0 where
  trace debug info test warn error crit : Severity

abbrev pub severity_id : Severity → ℕ
severity_id trace = 0
severity_id debug = 1
severity_id info = 2
severity_id test = 3
severity_id warn = 4
severity_id error = 5
severity_id crit = 6

pub data LoggingMode : Type 0 where
  logging_to_server no_logging : LoggingMode

pub data LogCommand : Type 0 where
  message_command change_file stop_command : LogCommand

pub record LogPackage : Type 0 where
  pub message : Bytes
  pub tag : Bytes
  pub timestamp : Timespec
  pub command : LogCommand
  pub severity : ℕ
  pub lchannel : ℤ

abbrev pub spaces : ℕ → Bytes
spaces n = replicate n 32

-- The tag is cut or padded with spaces.
unfoldable pub fit_tag : ℕ → Bytes → Bytes
fit_tag tag_size tag =
    if ltb tag_size (length tag)
    then take tag_size tag
    else if ltb (length tag) tag_size
    then tag ++ spaces (tag_size - length tag)
    else tag

-- CLogMessageBuilder::Init, with the time and the channel of the caller
unfoldable pub init : ℕ → Timespec → ℤ → Severity → Bytes → LogPackage
unfolding fit_tag
init tag_size now channel sev tag = record {
  message = [];
  tag = fit_tag tag_size tag;
  timestamp = now;
  command = message_command;
  severity = severity_id sev;
  lchannel = channel;
}

-- The package that the destructor hands to the sender.
unfoldable pub finish : ℕ → Bytes → LogPackage → LogPackage
finish max_message_size text p = record p {
  message = if ltb max_message_size (length text) then take max_message_size text else text;
}

module _ (to_upper : Bytes → Bytes) where
  unfoldable pub string_to_severity : Bytes → Severity
  string_to_severity s =
      let str_sev = to_upper s in
      if bytes_eq str_sev (codes "TEST")
      then test
      else if bytes_eq str_sev (codes "WARNING") || bytes_eq str_sev (codes "WARN")
      then warn
      else if bytes_eq str_sev (codes "DEBUG") || bytes_eq str_sev (codes "DBG")
      then debug
      else if bytes_eq str_sev (codes "ERROR") || bytes_eq str_sev (codes "ERR")
      then error
      else if bytes_eq str_sev (codes "CRITICAL") || bytes_eq str_sev (codes "CRIT")
      then crit
      else if bytes_eq str_sev (codes "TRACE")
      then trace
      else info

unfoldable pub severity_to_string : ℕ → Bytes
severity_to_string sev =
    if sev == severity_id crit
    then codes "CRIT"
    else if sev == severity_id error
    then codes "ERR "
    else if sev == severity_id warn
    then codes "WARN"
    else if sev == severity_id test
    then codes "TEST"
    else if sev == severity_id info
    then codes "INFO"
    else if sev == severity_id trace
    then codes "TRAC"
    else codes "DBG "

length-fit_tag : (n : ℕ) (tag : Bytes) → length (fit_tag n tag) ≡ n
unfolding fit_tag
length-fit_tag n tag = ground (
  arith,
  length-take n tag,
  length-append tag (spaces (n - length tag)),
  length-replicate {A = ℕ} (n - length tag) 32,
)

take-fit_tag : (n : ℕ) (tag : Bytes) → take (length tag) (fit_tag n tag) ≡ take n tag
unfolding fit_tag
take-fit_tag n tag = ground (
  arith,
  λ (h : n < length tag). take_all (length tag) (take n tag) (omega (arith, length-take {0} n tag)),
  take-length_append tag (spaces (n - length tag)),
  λ (h : length tag ≤ n). take_all n tag h,
  take_all (length tag) tag (omega arith),
)

-- What reaches the sender has a tag of the set size, which begins with the given one as far as that
-- goes, and a message that is the text up to the set size.
pub builder_bounds :
    (tag_size max_size : ℕ) (now : Timespec) (channel : ℤ) (sev : Severity) (tag text : Bytes)
    → let p = finish max_size text (init tag_size now channel sev tag) in
      (length p.tag ≡ tag_size)
      × (take (length tag) p.tag ≡ take tag_size tag)
      × (length p.message ≤ max_size)
      × (p.message ≡ take max_size text)
unfolding finish init
builder_bounds tag_size max_size now channel sev tag text = (
  length-fit_tag tag_size tag,
  take-fit_tag tag_size tag,
  ground (arith, cut),
  ground (arith, whole),
)
  where
    cut : length (take max_size text) ≤ max_size
    cut = omega (arith, length-take {0} max_size text)

    whole : ltb max_size (length text) ≡ false → take max_size text ≡ text
    whole h = take_all max_size text (ground arith)
