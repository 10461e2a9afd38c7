-- ===== src/Proxy/OscarAdaptor/EndToEnd.antt =====
-- From the client to the logger: what `WriteNextMessage` packs, `DoLog` unpacks.
use proxy_channels.Base.{
  ℕ, ◌+◌, ◌-◌, ◌^◌, ◌<◌, ◌≡◌, refl, ap, List, [], ◌∷◌, ◌++◌, Bytes, arith, length, some, ok, ◌>>=◌,
  Bool, false, ltb, ◌∙◌,
}
use proxy_channels.Base.Int.{
  InRange, to_signed-to_word8, to_signed-to_word64, to_word8-lt, to_word64-lt,
}
use proxy_channels.Oscar.Endian.{Endian}
use proxy_channels.Oscar.Memory.{Storage}
use proxy_channels.Oscar.Tlv.{calc_size, get_value}
use proxy_channels.Oscar.Tlv.Encoding.{encode_tlv}
use proxy_channels.Oscar.Proto.{
  TlvTraits, TlvData, tlv_type_id, flap_channel_id, tlv_module_tag, tlv_severity, tlv_log_text,
  tlv_log_channel, tlv_timestamp_sec, tlv_timestamp_microsec, tlv_log_name_prefix,
  tlv_log_name_suffix, snac_service_id,
}
use proxy_channels.Oscar.Snac.{accumulate, generate_request_id}
use proxy_channels.Oscar.Snac.Layout.{accumulate-encode_tlvs}
use proxy_channels.Oscar.Flap.{make_flap_package}
use proxy_channels.Oscar.Flap.Layout.{encode_snac, length-encode_snac, add_data-encode_flap}
use proxy_channels.Oscar.Flap.Parser.{end_ptr, begin, get_channel, get_snac_service, flap_parser}
use proxy_channels.Oscar.Flap.Cursor.{
  AllFit, iterator, Cursor, Cursor-tail, get_value-Cursor, next-Cursor,
}
use proxy_channels.Oscar.Flap.RoundTrip.{
  packet, headers, end_ptr-packet, first_tlv, begin-packet, get_channel-packet,
  get_snac_service-packet, flap_parser-packet,
}
use proxy_channels.Utils.LogBuilder.{
  LogPackage, LogCommand, message_command, change_file, stop_command,
}
use proxy_channels.LogClient.{flap_channel, traits, fields, pack}
use proxy_channels.Proxy.Actor.{oscar}
use proxy_channels.Proxy.OscarAdaptor.{
  field, log_message, log_new_file, log_stop, log_control, do_log,
}

-- The packages that fit into a packet: the headers and sizes of the fields take 52 bytes.
pub record IsSendable (p : LogPackage) : Type 0 where
  pub texts : length p.message + length p.tag < 2 ^ 16 - 52
  pub severity : p.severity < 256
  pub channel : InRange 8 p.lchannel
  pub sec : InRange 64 p.timestamp.tv_sec
  pub nsec : InRange 64 p.timestamp.tv_nsec

-- What the server knows of a package: a control packet carries no severity, a stop no texts.
abbrev pub received : LogCommand → ℕ → LogPackage → LogPackage
received message_command unset p = p
received change_file unset p = record p { severity = unset }
received stop_command unset p = record p { severity = unset; message = []; tag = [] }

module _ {e : Endian} {stg : Storage} {last : end_ptr e stg ≡ ok (length stg)} where
  field-Cursor :
      {p : Bytes} (t : TlvTraits) (ts : List TlvTraits) {d : TlvData (t ∷ ts)}
      → Cursor e stg last p (t ∷ ts) d
      → field e t.kind stg (iterator (t ∷ ts) d (length p))
        ≡ ok (d.0, iterator ts d.1 (length (p ++ encode_tlv e (tlv_type_id t.tlv_type) t.kind d.0)))
  unfolding field
  field-Cursor {p} t ts {d} c =
      rw (get_value-Cursor e stg last p t ts d c, next-Cursor e stg last p t ts d c)

  after :
      {p : Bytes} (t : TlvTraits) (ts : List TlvTraits) {d : TlvData (t ∷ ts)}
      → Cursor e stg last p (t ∷ ts) d
      → Cursor e stg last (p ++ encode_tlv e (tlv_type_id t.tlv_type) t.kind d.0) ts d.1
  after t ts c = Cursor-tail e stg last t ts c

  value-Cursor :
      {p : Bytes} (t : TlvTraits) {d : TlvData (t ∷ [])}
      → Cursor e stg last p (t ∷ []) d
      → get_value e t.kind (length p) stg ≡ ok d.0
  value-Cursor {p} t {d} c = get_value-Cursor e stg last p t [] d c

-- The fields behind the first of each packet.
abbrev time_tlvs : List TlvTraits
time_tlvs = tlv_timestamp_sec ∷ tlv_timestamp_microsec ∷ []

abbrev channel_tlvs : List TlvTraits
channel_tlvs = tlv_log_channel ∷ time_tlvs

module _ (p : LogPackage) (h : IsSendable p) where
  fields-AllFit : (c : LogCommand) → AllFit (traits c).tlvs (fields c p)
  fields-AllFit message_command = omega (arith, to_word8-lt, to_word64-lt)
  fields-AllFit change_file = omega (arith, to_word8-lt, to_word64-lt)
  fields-AllFit stop_command = omega (arith, to_word8-lt, to_word64-lt)

  module _ (e : Endian) (request_id : ℕ) where
    pub fits-snac :
        (c : LogCommand) → length (encode_snac e (traits c) request_id (fields c p)) < 2 ^ 16
    unfolding accumulate calc_size
    fits-snac message_command = omega (
      arith,
      length-encode_snac e (traits message_command) request_id (fields message_command p),
      accumulate-encode_tlvs e 0 (traits message_command).tlvs (fields message_command p),
    )
    fits-snac change_file = omega (
      arith,
      length-encode_snac e (traits change_file) request_id (fields change_file p),
      accumulate-encode_tlvs e 0 (traits change_file).tlvs (fields change_file p),
    )
    fits-snac stop_command = omega (
      arith,
      length-encode_snac e (traits stop_command) request_id (fields stop_command p),
      accumulate-encode_tlvs e 0 (traits stop_command).tlvs (fields stop_command p),
    )

    abbrev pub sent : LogCommand → Storage
    sent c = packet e (flap_channel c) 0 (traits c) request_id (fields c p) (fits-snac c)

    abbrev sent_end : (c : LogCommand) → end_ptr e (sent c) ≡ ok (length (sent c))
    sent_end c =
        end_ptr-packet e (flap_channel c) 0 (traits c) request_id (fields c p) (fits-snac c)

    abbrev sent_headers : LogCommand → Bytes
    sent_headers c = headers e (flap_channel c) 0 (traits c) request_id (fields c p) (fits-snac c)

    cursor :
        (c : LogCommand)
        → Cursor e (sent c) (sent_end c) (sent_headers c) (traits c).tlvs (fields c p)
    cursor c =
        first_tlv e (flap_channel c) 0 (traits c) request_id (fields c p) (fits-snac c)
          (fields-AllFit c)

    begin-sent :
        (c : LogCommand)
        → begin e (sent c) ≡ ok (iterator (traits c).tlvs (fields c p) (length (sent_headers c)))
    begin-sent c =
        begin-packet e (flap_channel c) 0 (traits c) request_id (fields c p) (fits-snac c)
          (fields-AllFit c)

    log_message-sent :
        log_message e (sent message_command) ≡ ok (record p { command = message_command })
    unfolding log_message
    log_message-sent =
        let c0 = cursor message_command in
        let c1 = after tlv_module_tag (tlv_severity ∷ (tlv_log_text ∷ channel_tlvs)) c0 in
        let c2 = after tlv_severity (tlv_log_text ∷ channel_tlvs) c1 in
        let c3 = after tlv_log_text channel_tlvs c2 in
        let c4 = after tlv_log_channel time_tlvs c3 in
        let c5 = after tlv_timestamp_sec (tlv_timestamp_microsec ∷ []) c4 in
        rw (
          begin-sent message_command,
          field-Cursor tlv_module_tag (tlv_severity ∷ (tlv_log_text ∷ channel_tlvs)) c0,
          field-Cursor tlv_severity (tlv_log_text ∷ channel_tlvs) c1,
          field-Cursor tlv_log_text channel_tlvs c2,
          field-Cursor tlv_log_channel time_tlvs c3,
          field-Cursor tlv_timestamp_sec (tlv_timestamp_microsec ∷ []) c4,
          value-Cursor tlv_timestamp_microsec c5,
          to_signed-to_word8 p.lchannel h.channel,
          to_signed-to_word64 p.timestamp.tv_sec h.sec,
          to_signed-to_word64 p.timestamp.tv_nsec h.nsec,
        )

    log_new_file-sent :
        (unset : ℕ)
        → log_new_file e unset (sent change_file) (
            iterator
              (traits change_file).tlvs
              (fields change_file p)
              (length (sent_headers change_file)))
          ≡ ok (record p { command = change_file; severity = unset })
    unfolding log_new_file
    log_new_file-sent unset =
        let c0 = cursor change_file in
        let c1 = after tlv_log_name_prefix (tlv_log_name_suffix ∷ channel_tlvs) c0 in
        let c2 = after tlv_log_name_suffix channel_tlvs c1 in
        let c3 = after tlv_log_channel time_tlvs c2 in
        let c4 = after tlv_timestamp_sec (tlv_timestamp_microsec ∷ []) c3 in
        rw (
          field-Cursor tlv_log_name_prefix (tlv_log_name_suffix ∷ channel_tlvs) c0,
          field-Cursor tlv_log_name_suffix channel_tlvs c1,
          field-Cursor tlv_log_channel time_tlvs c2,
          field-Cursor tlv_timestamp_sec (tlv_timestamp_microsec ∷ []) c3,
          value-Cursor tlv_timestamp_microsec c4,
          to_signed-to_word8 p.lchannel h.channel,
          to_signed-to_word64 p.timestamp.tv_sec h.sec,
          to_signed-to_word64 p.timestamp.tv_nsec h.nsec,
        )

    log_stop-sent :
        (unset : ℕ)
        → log_stop e unset (sent stop_command) (
            iterator
              (traits stop_command).tlvs
              (fields stop_command p)
              (length (sent_headers stop_command)))
          ≡ ok (record p { command = stop_command; severity = unset; message = []; tag = [] })
    unfolding log_stop
    log_stop-sent unset =
        let c0 = cursor stop_command in
        let c1 = after tlv_log_channel time_tlvs c0 in
        let c2 = after tlv_timestamp_sec (tlv_timestamp_microsec ∷ []) c1 in
        rw (
          field-Cursor tlv_log_channel time_tlvs c0,
          field-Cursor tlv_timestamp_sec (tlv_timestamp_microsec ∷ []) c1,
          value-Cursor tlv_timestamp_microsec c2,
          to_signed-to_word8 p.lchannel h.channel,
          to_signed-to_word64 p.timestamp.tv_sec h.sec,
          to_signed-to_word64 p.timestamp.tv_nsec h.nsec,
        )

    flap_parser-sent :
        (c : LogCommand) (fuel : ℕ)
        → 6 < fuel
        → flap_parser e fuel (sent c)
          ≡ ok (record { stg = sent c; tlv_count = length (traits c).tlvs })
    flap_parser-sent c fuel enough =
        flap_parser-packet e (flap_channel c) 0 (traits c) request_id (fields c p) (fits-snac c)
          (fields-AllFit c) fuel (few c)
      where
        few : (k : LogCommand) → length (traits k).tlvs < fuel
        few message_command = omega arith
        few change_file = omega arith
        few stop_command = omega arith

    channel-sent : (c : LogCommand) → get_channel (sent c) ≡ ok (flap_channel_id (flap_channel c))
    channel-sent c =
        get_channel-packet e (flap_channel c) 0 (traits c) request_id (fields c p) (fits-snac c)

    service-sent :
        (c : LogCommand) → get_snac_service e (sent c) ≡ ok (snac_service_id (traits c).service)
    service-sent c =
        get_snac_service-packet e (flap_channel c) 0 (traits c) request_id (fields c p)
          (fits-snac c)

    do_log-sent :
        (c : LogCommand) (fuel unset : ℕ)
        → 6 < fuel
        → do_log e fuel unset oscar (sent c)
          ≡ ok (some (record (received c unset p) { command = c }))
    unfolding do_log log_control
    do_log-sent message_command fuel unset enough = rw (
      flap_parser-sent message_command fuel enough,
      channel-sent message_command,
      log_message-sent,
    )
    do_log-sent change_file fuel unset enough = rw (
      flap_parser-sent change_file fuel enough,
      channel-sent change_file,
      begin-sent change_file,
      service-sent change_file,
      log_new_file-sent unset,
    )
    do_log-sent stop_command fuel unset enough = rw (
      flap_parser-sent stop_command fuel enough,
      channel-sent stop_command,
      begin-sent stop_command,
      service-sent stop_command,
      log_stop-sent unset,
    )

module _ (e : Endian) (debug : Bool) (p : LogPackage) (h : IsSendable p) where
  received-command :
      (c : LogCommand) (unset : ℕ)
      → record (received c unset p) { command = p.command } ≡ received c unset p
  received-command message_command unset = refl
  received-command change_file unset = refl
  received-command stop_command unset = refl

  pub pack-sent :
      (num : ℕ)
      → (pack e debug p num).0 ≡ ok (sent p h e (generate_request_id debug num).0 p.command)
  unfolding pack make_flap_package generate_request_id
  pack-sent num = rw (
    add_data-encode_flap e (flap_channel p.command) 0 (traits p.command) id (fields p.command p),
    fits,
  )
    where
      id : ℕ
      id = (generate_request_id debug num).0

      fits :
          ltb (2 ^ 16 - 1) (length (encode_snac e (traits p.command) id (fields p.command p)))
          ≡ false
      fits = ground (arith, fits-snac p h e id p.command)

  -- A package whose fields fit is packed, and the server's adaptor restores it, with fuel above 6: a
  -- message whole, a change of the file without its severity, a stop also without its texts.
  pub do_log-pack :
      (num fuel unset : ℕ)
      → 6 < fuel
      → ((pack e debug p num).0 >>= do_log e fuel unset oscar)
        ≡ ok (some (received p.command unset p))
  do_log-pack num fuel unset enough = rw (pack-sent num) (
      do_log-sent p h e (generate_request_id debug num).0 p.command fuel unset enough
      ∙ ap (λ q. ok (some q)) (received-command p.command unset))
