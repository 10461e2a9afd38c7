-- ===== src/System/EtfPath.antt =====
-- From the packets of an ETF client to the records of its log channels: the connection
-- (CTcpServerChildEtfLog) and the adaptor (proxy/etf_logger_adapter.cpp). The network hands on the
-- bytes in their order.
use proxy_channels.Base.{
  ℕ, suc, ◌+◌, ◌*◌, ◌^◌, ◌<◌, ◌≡◌, refl, ap, ◌∙◌, List, [], ◌∷◌, ◌++◌, Bytes, codes, true, arith,
  length, Option, Result, ok, ◌>>=◌,
}
use proxy_channels.Oscar.Endian.{object_bytes, object_value-object_bytes}
use proxy_channels.Oscar.Memory.{read}
use proxy_channels.Utils.Timestamp.{Timespec}
use proxy_channels.Utils.LogBuilder.{LogPackage, message_command, log_client_channel}
use proxy_channels.Proxy.Actor.{etflog}
use proxy_channels.Proxy.TcpChild.{read_handler}
use proxy_channels.Proxy.TcpChild.Readers.{Reader}
use proxy_channels.Proxy.TcpChild.Serving
use proxy_channels.Proxy.TcpChild.EtfReassembly
use proxy_channels.Proxy.TcpChild.EtfReassembly.{handle, IsIdle, serve-stream_etf}
use proxy_channels.Proxy.LogChannel.{to_log}
use proxy_channels.Proxy.LogChannel.Adaptor.{LogAdaptor, etf_output, hand_on}
use proxy_channels.Proxy.LogChannel.Delivery.{etf_packet, etf_do_log-etf_packet}

-- What an ETF client logs.
pub record EtfCall : Type 0 where
  pub kind : ℕ
  pub severity : ℕ
  pub module_a : ℕ
  pub module_b : ℕ
  pub module_c : ℕ
  pub text : Bytes
  pub small_severity : severity < 255
  pub small_text : length text < 2 ^ 32

abbrev pub packet_bytes : EtfCall → Bytes
packet_bytes v = etf_packet v.kind v.severity v.module_a v.module_b v.module_c v.text

abbrev pub etf_wire : List EtfCall → Bytes
etf_wire [] = []
etf_wire (v ∷ vs) = packet_bytes v ++ etf_wire vs

frame : EtfCall → EtfReassembly.Packet
unfolding object_bytes read
frame v = record {
  front = 79 ∷ 71 ∷ v.kind ∷ v.severity ∷ v.module_a ∷ [];
  back = v.module_b ∷ v.module_c ∷ object_bytes 4 (length v.text);
  body = v.text;
  size_bytes = object_bytes 4 (length v.text);
  size_of_front = refl;
  size_of_back = refl;
  size_of_body = v.small_text;
  has_size = refl;
  is_size = object_value-object_bytes 4 (length v.text) (omega (arith, v.small_text));
}

frames : List EtfCall → List EtfReassembly.Packet
frames [] = []
frames (v ∷ vs) = frame v ∷ frames vs

etf_wire-stream : (vs : List EtfCall) → etf_wire vs ≡ EtfReassembly.stream (frames vs)
unfolding frames frame etf_packet object_bytes
etf_wire-stream [] = refl
etf_wire-stream (v ∷ vs) = ap (λ rest. packet_bytes v ++ rest) (etf_wire-stream vs)

frame-bytes : (v : EtfCall) → EtfReassembly.bytes_of (frame v) ≡ packet_bytes v
unfolding frame etf_packet object_bytes
frame-bytes v = refl

length-frames : (vs : List EtfCall) → length (frames vs) ≡ length vs
unfolding frames
length-frames [] = refl
length-frames (v ∷ vs) = ap suc (length-frames vs)

-- The package that an adaptor makes of it.
abbrev pub logged : Timespec → EtfCall → LogPackage
logged now v = record {
  message = v.text;
  tag = v.module_a ∷ v.module_b ∷ v.module_c ∷ codes " ";
  timestamp = now;
  command = message_command;
  severity = v.severity + 1;
  lchannel = log_client_channel;
}

-- `clock` gives the time of each message.
module _ (erase_all_regex : Bytes → Bytes → Option Bytes) (clock : ℕ → Timespec)
    (a : LogAdaptor) where
  unfoldable pub output_all : ℕ → List Bytes → Result (List LogPackage)
  output_all i [] = ok []
  output_all i (m ∷ ms) = do
    first ← etf_output erase_all_regex a (clock i) m
    rest ← output_all (suc i) ms
    ok (first ++ rest)

  -- A connection and its adaptor, fed with bytes.
  unfoldable pub etf_take_in : ℕ → Bytes → Reader → Result (List LogPackage)
  unfolding output_all
  etf_take_in reads input r =
      Serving.serve handle reads read_handler 0 6 input r >>= λ ms. output_all 0 ms

  abbrev pub all_logged : ℕ → List EtfCall → List LogPackage
  all_logged i [] = []
  all_logged i (v ∷ vs) =
      let rest = all_logged (suc i) vs in
      to_log erase_all_regex a.channels (logged (clock i) v) ++ rest

  module _ (connected : a.is_connected ≡ true) (proto : a.protocol ≡ etflog) where
    etf_output-logged :
        (now : Timespec) (v : EtfCall)
        → etf_output erase_all_regex a now (packet_bytes v)
          ≡ ok (to_log erase_all_regex a.channels (logged now v))
    unfolding etf_output hand_on
    etf_output-logged now v =
        rw
          (
            connected,
            proto,
            etf_do_log-etf_packet now v.kind v.severity v.module_a v.module_b v.module_c v.text
                v.small_severity,
          )
          refl

    output_all-logged :
        (i : ℕ) (vs : List EtfCall)
        → output_all i (EtfReassembly.packets (frames vs)) ≡ ok (all_logged i vs)
    unfolding output_all frames
    output_all-logged i [] = refl
    output_all-logged i (v ∷ vs) =
        rw (frame-bytes v, etf_output-logged (clock i) v, output_all-logged (suc i) vs) refl

    pub etf_take_in-logged :
        (vs : List EtfCall) (r : Reader) (reads : ℕ)
        → IsIdle r
        → 3 * length vs < reads
        → etf_take_in reads (etf_wire vs) r ≡ ok (all_logged 0 vs)
    unfolding etf_take_in
    etf_take_in-logged vs r reads i enough =
        let fuel : 3 * length (frames vs) < reads = omega (arith, length-frames vs) in
        ap (λ input. Serving.serve handle reads read_handler 0 6 input r >>= λ ms. output_all 0 ms)
          (etf_wire-stream vs)
        ∙ ap (λ t. t >>= λ ms. output_all 0 ms) (serve-stream_etf (frames vs) r reads i fuel)
        ∙ output_all-logged 0 vs
