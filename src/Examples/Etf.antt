-- ===== src/Examples/Etf.antt =====
-- An ETF connection and its adaptor.
use proxy_channels.Base.{
  ℕ, ◌≡◌, ◌<◌, ◌^◌, length, refl, List, [], ◌∷◌, Bytes, codes, true, arith, Option, some, replicate,
  ok,
}
use proxy_channels.Base.Int.{pos}
use proxy_channels.Utils.Timestamp.{Timespec}
use proxy_channels.Proxy.Actor.{etflog}
use proxy_channels.Proxy.TcpChild.Readers.{Reader}
use proxy_channels.Proxy.LogChannel.{LogChannel}
use proxy_channels.Proxy.LogChannel.Adaptor.{LogAdaptor}
use proxy_channels.System.EtfPath.{EtfCall, etf_wire, etf_take_in, all_logged, etf_take_in-logged}
use proxy_channels.Examples.Connections.{reader}

abbrev two_channels : List LogChannel
two_channels =
    record { channel = pos 3; filters = [] }
    ∷ record { channel = pos 4; filters = codes "x" ∷ [] }
    ∷ []

abbrev adaptor : LogAdaptor
adaptor = record {
  tag = codes "etf";
  id = codes "log";
  protocol = etflog;
  channels = two_channels;
  is_connected = true;
}

abbrev unchanged : Bytes → Bytes → Option Bytes
unchanged text expression = some text

abbrev clock : ℕ → Timespec
clock i = record { tv_sec = pos i; tv_nsec = pos 0 }

abbrev call_of : (text : Bytes) → length text < 2 ^ 32 → EtfCall
call_of text small = record {
  kind = 1;
  severity = 2;
  module_a = 65;
  module_b = 66;
  module_c = 67;
  text = text;
  small_severity = omega arith;
  small_text = small;
}

abbrev waiting : Reader
waiting = record reader { in_buffer = replicate 12 0 }

abbrev two_calls : List EtfCall
two_calls = call_of (codes "up") (omega arith) ∷ call_of [] (omega arith) ∷ []

etf_take_in-logged_example :
    etf_take_in unchanged clock adaptor 7 (etf_wire two_calls) waiting
    ≡ ok (all_logged unchanged clock adaptor 0 two_calls)
etf_take_in-logged_example =
    etf_take_in-logged unchanged clock adaptor refl refl two_calls waiting 7
      (record { no_header = refl; room = refl }) (omega arith)
