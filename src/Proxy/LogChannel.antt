-- ===== src/Proxy/LogChannel.antt =====
-- proxy/log_channel.cpp, proxy/log_adaptor.cpp and proxy/etf_logger_adapter.cpp: how a log package
-- reaches the logger.
pub mod Adaptor
pub mod Delivery
pub mod Making
use proxy_channels.Base.{
  ℕ, ◌+◌, ◌%◌, ◌^◌, List, [], ◌∷◌, ◌++◌, Bytes, codes, bytes_eq, Bool, true, false, leb,
  if◌then◌else◌, Option, none, some, Result, ok, err, ◌>>=◌, out_of_bounds, length, take, drop,
}
use proxy_channels.Base.Int.{ℤ, eqb_ℤ}
use proxy_channels.Oscar.Memory.{read}
use proxy_channels.Utils.Timestamp.{Timespec}
use proxy_channels.Utils.LogBuilder.{
  LogPackage, message_command, log_unknown_channel, log_client_channel,
}
use proxy_channels.Proxy.Actor.{NetProtocol, etflog}
use proxy_channels.Proxy.TcpChild.Readers.{etf_log_header_size}

-- The only kind of filter erases what a regular expression matches.
pub record LogChannel : Type 0 where
  pub channel : ℤ
  pub filters : List Bytes

-- `erase_all_regex text expression` is that of Boost; `none` is an exception.
module _ (erase_all_regex : Bytes → Bytes → Option Bytes) where
  unfoldable pub execute : Bytes → Bytes → Bytes
  execute expression text = elim (erase_all_regex text expression) [ some t ↦ t | none ↦ text ]

  unfoldable pub execute_all : List Bytes → Bytes → Bytes
  execute_all [] text = text
  execute_all (f ∷ fs) text = execute_all fs (execute f text)

  -- What DirectSendToLogger gets.
  unfoldable pub transfer_log_message : LogChannel → LogPackage → LogPackage
  unfolding execute_all
  transfer_log_message c msg = record msg {
    message = execute_all c.filters msg.message;
    lchannel = if eqb_ℤ msg.lchannel log_unknown_channel then c.channel else msg.lchannel;
  }

  -- m_toLog: each channel of the adaptor gets the package.
  unfoldable pub to_log : List LogChannel → LogPackage → List LogPackage
  to_log [] msg = []
  to_log (c ∷ cs) msg = transfer_log_message c msg ∷ to_log cs msg

-- CEtfLoggerAdaptor::DoLog: SEtfLogHeader holds the tag, the type, the severity, the module and the
-- size of the message.
unfoldable pub first : Bytes → ℕ
first [] = 0
first (b ∷ bs) = b

-- The fields behind the tag.
unfoldable pub etf_fields : Timespec → Bytes → Result (Option LogPackage)
unfolding first
etf_fields now msg = do
  severity ← read 4 1 msg
  name ← read 5 3 msg
  if leb etf_log_header_size (length msg)
      then ok (
          some (record {
            message = drop etf_log_header_size msg;
            tag = name ++ codes " ";
            timestamp = now;
            command = message_command;
            severity = (first severity + 1) % 2 ^ 8;
            lchannel = log_client_channel;
          }))
      else err out_of_bounds

unfoldable pub etf_package : Timespec → Bytes → Result (Option LogPackage)
unfolding etf_fields
etf_package now msg = do
  tag ← read 0 3 msg
  if bytes_eq tag (codes "LOG") then etf_fields now msg else ok none

unfoldable pub etf_do_log : NetProtocol → Timespec → Bytes → Result (Option LogPackage)
unfolding etf_package
etf_do_log etflog now msg = etf_package now msg
etf_do_log proto now msg = ok none
