-- ===== src/System/LogPath.antt =====
-- From the calls of a program that logs to the records of the server: the client
-- (logclient/logclient.cpp), the connection (CTcpServerChildOscar) and the adaptor
-- (proxy/oscar_logger_adapter.cpp). The network hands on the bytes in their order.
use proxy_channels.Base.{
  ℕ, ◌*◌, ◌<◌, ◌≡◌, refl, sym, ap, ◌∙◌, List, [], ◌∷◌, ◌++◌, Bytes, Bool, arith, length, map,
  Option, some, Result, ok, ◌>>=◌, false,
}
use proxy_channels.Oscar.Endian.{Endian}
use proxy_channels.Oscar.Snac.{generate_request_id}
use proxy_channels.Oscar.Tlv.{stored}
use proxy_channels.Oscar.Proto.{flap_channel_id}
use proxy_channels.Oscar.Flap.Layout.{encode_snac}
use proxy_channels.Oscar.Flap.RoundTrip.{
  packet_split, length-flap_header, get_snac_size-flap_header,
}
use proxy_channels.Utils.LogBuilder.{LogPackage}
use proxy_channels.LogClient.{Client, Event, run, pack, flap_channel, traits, fields}
use proxy_channels.LogClient.Wire.{packets, ArePackable}
use proxy_channels.LogClient.Wire.Outstanding.{
  accepted_all, idle_wired, wire, ArePossible, wire-drained,
}
use proxy_channels.Proxy.Actor.{oscar}
use proxy_channels.Proxy.OscarAdaptor.{do_log}
use proxy_channels.Proxy.OscarAdaptor.EndToEnd.{
  IsSendable, received, fits-snac, pack-sent, do_log-pack,
}
use proxy_channels.Proxy.TcpChild.{read_handler}
use proxy_channels.Proxy.TcpChild.Readers.{Reader}
use proxy_channels.Proxy.TcpChild.Reassembly

-- The adaptor takes the messages one after another.
unfoldable pub log_all : Endian → ℕ → ℕ → List Bytes → Result (List (Option LogPackage))
log_all e fuel unset [] = ok []
log_all e fuel unset (m ∷ ms) = do
  p ← do_log e fuel unset oscar m
  ps ← log_all e fuel unset ms
  ok (p ∷ ps)

-- A connection and its adaptor, fed with bytes.
unfoldable pub take_in : Endian → ℕ → ℕ → ℕ → Bytes → Reader → Result (List (Option LogPackage))
take_in e reads fuel unset input r =
    Reassembly.serve e reads read_handler 0 6 input r >>= log_all e fuel unset

abbrev pub AreSendable : List LogPackage → Type 0
AreSendable [] = Unit
AreSendable (p ∷ ps) = IsSendable p × AreSendable ps

module _ (e : Endian) (debug : Bool) where
  module _ (p : LogPackage) (h : IsSendable p) (num : ℕ) where
    abbrev id : ℕ
    id = (generate_request_id debug num).0

    abbrev frame : Reassembly.Packet e
    frame = record {
      header_tail =
          flap_channel_id (flap_channel p.command)
          ∷ (stored e 2 0
              ++ stored e 2 (length (encode_snac e (traits p.command) id (fields p.command p))));
      body = encode_snac e (traits p.command) id (fields p.command p);
      size_of_tail = omega (
        arith,
        length-flap_header e (flap_channel p.command) 0 (traits p.command) id (fields p.command p)
            (fits-snac p h e id p.command),
      );
      size_of_body = fits-snac p h e id p.command;
      holds_size =
          get_snac_size-flap_header e (flap_channel p.command) 0 (traits p.command) id
            (fields p.command p) (fits-snac p h e id p.command);
    }

    pack-frame : (pack e debug p num).0 ≡ ok (Reassembly.bytes_of e frame)
    pack-frame =
        pack-sent e debug p h num
        ∙ ap ok (
            packet_split e (flap_channel p.command) 0 (traits p.command) id (fields p.command p)
              (fits-snac p h e id p.command))

    do_log-frame :
        (fuel unset : ℕ)
        → 6 < fuel
        → do_log e fuel unset oscar (Reassembly.bytes_of e frame)
          ≡ ok (some (received p.command unset p))
    do_log-frame fuel unset enough =
        sym (ap (λ r. r >>= do_log e fuel unset oscar) pack-frame)
        ∙ do_log-pack e debug p h num fuel unset enough

  abbrev frames : (ps : List LogPackage) → AreSendable ps → ℕ → List (Reassembly.Packet e)
  frames [] h num = []
  frames (p ∷ ps) h num = let rest = frames ps h.1 (pack e debug p num).1 in frame p h.0 num ∷ rest

  packets-frames :
      (ps : List LogPackage) (h : AreSendable ps) (num : ℕ)
      → packets e debug num ps ≡ Reassembly.stream e (frames ps h num)
  unfolding packets
  packets-frames [] h num = refl
  packets-frames (p ∷ ps) h num =
      rw (pack-frame p h.0 num, packets-frames ps h.1 (pack e debug p num).1) refl

  length-frames :
      (ps : List LogPackage) (h : AreSendable ps) (num : ℕ) → length (frames ps h num) ≡ length ps
  length-frames [] h num = refl
  length-frames (p ∷ ps) h num = rw (length-frames ps h.1 (pack e debug p num).1) refl

  log_all-frames :
      (ps : List LogPackage) (h : AreSendable ps) (num fuel unset : ℕ)
      → 6 < fuel
      → log_all e fuel unset (Reassembly.packets e (frames ps h num))
        ≡ ok (map (λ p. some (received p.command unset p)) ps)
  unfolding log_all
  log_all-frames [] h num fuel unset enough = refl
  log_all-frames (p ∷ ps) h num fuel unset enough =
      rw
        (
          do_log-frame p h.0 num fuel unset enough,
          log_all-frames ps h.1 (pack e debug p num).1 fuel unset enough,
        )
        refl

  AreSendable-ArePackable : (ps : List LogPackage) → AreSendable ps → ArePackable e debug ps
  AreSendable-ArePackable [] h = tt
  AreSendable-ArePackable (p ∷ ps) h =
      (λ num. (_, pack-sent e debug p h.0 num), AreSendable-ArePackable ps h.1)

  -- Let a client that is idle with an empty queue run without a failed write until it is so again, and
  -- let the packages that it accepted be ones whose fields fit. Then a connection that waits for a
  -- header, and its adaptor, make of the bytes that its writes put on the wire exactly these packages, in their order, as
  -- far as the packets carry them, if the fuel of the reads is more than twice their number and that
  -- of the parser above 6.
  pub take_in-wire :
      (vs : List Event) (s : Client) (r : Reader) (reads fuel unset : ℕ)
      → s.queue ≡ []
      → s.write_in_progress ≡ false
      → ArePossible e debug vs s
      → AreSendable (accepted_all e debug vs s)
      → (run e debug vs s).queue ≡ []
      → (run e debug vs s).write_in_progress ≡ false
      → Reassembly.IsIdle e r
      → 2 * length (accepted_all e debug vs s) < reads
      → 6 < fuel
      → take_in e reads fuel unset (wire e debug vs (idle_wired s)) r
        ≡ ok (map (λ p. some (received p.command unset p)) (accepted_all e debug vs s))
  unfolding take_in
  take_in-wire vs s r reads fuel unset empty idle h k drained finished i enough enough' =
      ap (λ w. take_in e reads fuel unset w r) all_sent
      ∙ ap (λ m. m >>= log_all e fuel unset)
          (Reassembly.serve-stream e (frames ps k s.next_request) r reads i
            (omega (arith, length-frames ps k s.next_request)))
      ∙ log_all-frames ps k s.next_request fuel unset enough'
    where
      ps : List LogPackage
      ps = accepted_all e debug vs s

      all_sent : wire e debug vs (idle_wired s) ≡ Reassembly.stream e (frames ps k s.next_request)
      all_sent =
          wire-drained e debug vs s empty idle h (AreSendable-ArePackable ps k) drained finished
          ∙ packets-frames ps k s.next_request
