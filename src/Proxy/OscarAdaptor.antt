-- ===== src/Proxy/OscarAdaptor.antt =====
-- `DoLog` of proxy/oscar_logger_adapter.cpp: a packet becomes a log package. The severity that a
-- control packet leaves unset is the argument `unset`.
pub mod EndToEnd
use proxy_channels.Base.{ℕ, Bytes, [], Option, none, some, Result, ok, ◌>>=◌, ◌==◌, if◌then◌else◌}
use proxy_channels.Base.Int.{to_signed}
use proxy_channels.Oscar.Endian.{Endian}
use proxy_channels.Oscar.Memory.{Storage}
use proxy_channels.Oscar.Tlv.{Kind, string, integral, DataType, get_value}
use proxy_channels.Oscar.Proto.{FlapChannel, flap_channel_id, SnacService, snac_service_id}
use proxy_channels.Oscar.Flap.Parser.{
  TlvIterator, get_channel, get_snac_service, begin, next, flap_parser,
}
use proxy_channels.Utils.Timestamp.{Timespec}
use proxy_channels.Utils.LogBuilder.{LogPackage, message_command, change_file, stop_command}
use proxy_channels.Proxy.Actor.{NetProtocol, oscar}

module _ (e : Endian) where
  -- get_value<T>(it.get()); ++it
  unfoldable pub field : (k : Kind) → Storage → TlvIterator → Result (DataType k × TlvIterator)
  field k stg it = do v ← get_value e k it.begin stg; it' ← next e stg it; ok (v, it')

  unfoldable pub log_message : Storage → Result LogPackage
  log_message stg = do
    it0 ← begin e stg
    (tag, it1) ← field string stg it0
    (severity, it2) ← field (integral 1) stg it1
    (message, it3) ← field string stg it2
    (lchannel, it4) ← field (integral 1) stg it3
    (sec, it5) ← field (integral 8) stg it4
    nsec ← get_value e (integral 8) it5.begin stg
    ok (record {
      message = message;
      tag = tag;
      timestamp = record { tv_sec = to_signed 64 sec; tv_nsec = to_signed 64 nsec };
      command = message_command;
      severity = severity;
      lchannel = to_signed 8 lchannel;
    })

  unfoldable pub log_new_file : ℕ → Storage → TlvIterator → Result LogPackage
  log_new_file unset stg it0 = do
    (message, it1) ← field string stg it0
    (tag, it2) ← field string stg it1
    (lchannel, it3) ← field (integral 1) stg it2
    (sec, it4) ← field (integral 8) stg it3
    nsec ← get_value e (integral 8) it4.begin stg
    ok (record {
      message = message;
      tag = tag;
      timestamp = record { tv_sec = to_signed 64 sec; tv_nsec = to_signed 64 nsec };
      command = change_file;
      severity = unset;
      lchannel = to_signed 8 lchannel;
    })

  unfoldable pub log_stop : ℕ → Storage → TlvIterator → Result LogPackage
  log_stop unset stg it0 = do
    (lchannel, it1) ← field (integral 1) stg it0
    (sec, it2) ← field (integral 8) stg it1
    nsec ← get_value e (integral 8) it2.begin stg
    ok (record {
      message = [];
      tag = [];
      timestamp = record { tv_sec = to_signed 64 sec; tv_nsec = to_signed 64 nsec };
      command = stop_command;
      severity = unset;
      lchannel = to_signed 8 lchannel;
    })

  unfoldable pub log_control : ℕ → Storage → Result (Option LogPackage)
  log_control unset stg = do
    it ← begin e stg
    service ← get_snac_service e stg
    if service == snac_service_id SnacService.start
        then (do p ← log_new_file unset stg it; ok (some p))
        else if service == snac_service_id SnacService.stop
        then (do p ← log_stop unset stg it; ok (some p))
        else ok none

  -- The package that is handed to the log channels, if any.
  unfoldable pub do_log : ℕ → ℕ → NetProtocol → Bytes → Result (Option LogPackage)
  do_log fuel unset oscar msg = do
    fp ← flap_parser e fuel msg
    channel ← get_channel fp.stg
    if channel == flap_channel_id FlapChannel.message
        then (do p ← log_message fp.stg; ok (some p))
        else if channel == flap_channel_id FlapChannel.control
        then log_control unset fp.stg
        else ok none
  do_log fuel unset _ msg = ok none
