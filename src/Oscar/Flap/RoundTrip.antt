-- ===== src/Oscar/Flap/RoundTrip.antt =====
-- What the parser finds in a packet of the builder.
use native.Mathlib.Nat.{zero-add}
use proxy_channels.Base.{
  ℕ, ◌+◌, ◌^◌, ◌<◌, ◌≡◌, refl, sym, ap, ◌∙◌, ◌∷◌, ◌++◌, Bytes, arith, length, length-append,
  append_assoc, append-nil, [], ok, ltb, false, not, leb, ◌&&◌,
}
use proxy_channels.Oscar.Endian.{Endian}
use proxy_channels.Oscar.Memory.{Storage}
use proxy_channels.Oscar.Tlv.{stored, get_value_item}
use proxy_channels.Oscar.Tlv.Encoding.{length-stored}
use proxy_channels.Oscar.Tlv.RoundTrip.{get_value_item-stored}
use proxy_channels.Oscar.Proto.{
  FlapChannel, flap_channel_id, flap_channel_begin, flap_channel_end, SnacService, snac_service_id,
  snac_subtype_id, TlvData, SnacTraits,
}
use proxy_channels.Oscar.Snac.{flap_mark}
use proxy_channels.Oscar.Snac.Layout.{encode_tlvs, encode_header, length-encode_header}
use proxy_channels.Oscar.Flap.{default_flags}
use proxy_channels.Oscar.Flap.Layout.{encode_snac, encode_flap, length-encode_snac}
use proxy_channels.Oscar.Flap.Cursor.{
  AllFit, iterator, Cursor, iterator_at-Cursor, count_from-Cursor,
}
use proxy_channels.Oscar.Flap.Parser.{
  byte_at, get_channel, get_snac_size, get_snac_service, end_ptr, begin, calc_tlv_count,
  bad_structure, flap_parser,
}

service-lt : (s : SnacService) → snac_service_id s < 2 ^ 16
service-lt SnacService.start = omega arith
service-lt SnacService.stop = omega arith
service-lt SnacService.message = omega arith

valid_channel :
    (c : FlapChannel)
    → not (leb flap_channel_begin (flap_channel_id c) && ltb (flap_channel_id c) flap_channel_end)
      ≡ false
valid_channel FlapChannel.control = refl
valid_channel FlapChannel.message = refl

module _ (e : Endian) (channel : FlapChannel) (sequence_number : ℕ) (traits : SnacTraits)
    (request_id : ℕ) (d : TlvData traits.tlvs)
    (small : length (encode_snac e traits request_id d) < 2 ^ 16) where
  abbrev pub packet : Storage
  packet = encode_flap e channel sequence_number (encode_snac e traits request_id d)

  abbrev before_size : Bytes
  before_size = flap_mark ∷ (flap_channel_id channel ∷ stored e 2 sequence_number)

  abbrev pub flap_header : Bytes
  flap_header = before_size ++ stored e 2 (length (encode_snac e traits request_id d))

  length-before_size : length before_size ≡ 4
  length-before_size = omega (arith, length-stored e 2 sequence_number)

  pub length-flap_header : length flap_header ≡ 6
  length-flap_header = omega (
    arith,
    length-append {0} before_size (stored e 2 (length (encode_snac e traits request_id d))),
    length-before_size,
    length-stored e 2 (length (encode_snac e traits request_id d)),
  )

  pub packet_split : packet ≡ flap_header ++ encode_snac e traits request_id d
  unfolding encode_flap
  packet_split = simp append_assoc

  length-packet : length packet ≡ 6 + length (encode_snac e traits request_id d)
  length-packet = omega (
    arith,
    ap length packet_split,
    length-append {0} flap_header (encode_snac e traits request_id d),
    length-flap_header,
  )

  pub get_snac_size-flap_header :
      get_value_item e 2 4 flap_header ≡ ok (length (encode_snac e traits request_id d))
  get_snac_size-flap_header =
      get_value_item-stored e before_size [] flap_header 4 2
        (length (encode_snac e traits request_id d))
        (ap (λ l. before_size ++ l) (sym (append-nil _))) (sym length-before_size) small

  pub get_channel-packet : get_channel packet ≡ ok (flap_channel_id channel)
  unfolding get_channel encode_flap byte_at
  get_channel-packet = refl

  get_snac_size-packet : get_snac_size e packet ≡ ok (length (encode_snac e traits request_id d))
  unfolding get_snac_size encode_flap
  get_snac_size-packet =
      get_value_item-stored e before_size (encode_snac e traits request_id d) packet 4 2
        (length (encode_snac e traits request_id d)) refl (sym length-before_size) small

  pub end_ptr-packet : end_ptr e packet ≡ ok (length packet)
  unfolding end_ptr
  end_ptr-packet = rw get_snac_size-packet (ap ok (sym length-packet))

  pub get_snac_service-packet : get_snac_service e packet ≡ ok (snac_service_id traits.service)
  unfolding get_snac_service
  get_snac_service-packet =
      get_value_item-stored e flap_header rest packet 6 2 (snac_service_id traits.service)
        (packet_split ∙ unfolded) (sym length-flap_header) (service-lt traits.service)
    where
      rest : Bytes
      rest =
          (stored e 2 (snac_subtype_id traits.subtype)
            ++ (stored e 2 default_flags ++ stored e 4 request_id))
          ++ encode_tlvs e traits.tlvs d

      unfolded :
          flap_header ++ encode_snac e traits request_id d
          ≡ flap_header ++ (stored e 2 (snac_service_id traits.service) ++ rest)
      unfolded = unfold encode_snac encode_header in simp append_assoc

  bad_structure-packet : bad_structure e packet ≡ ok false
  unfolding bad_structure encode_flap
  bad_structure-packet =
      rw (get_channel-packet, valid_channel channel, get_snac_size-packet)
        (ap ok (ground (arith, length-packet)))

  -- The bytes before the first TLV.
  abbrev pub headers : Bytes
  headers = flap_header ++ encode_header e traits default_flags request_id

  length-headers : 16 ≡ length headers
  length-headers = omega (
    arith,
    length-append {0} flap_header (encode_header e traits default_flags request_id),
    length-flap_header,
    length-encode_header e traits default_flags request_id,
  )

  module _ (fits : AllFit traits.tlvs d) where
    pub first_tlv : Cursor e packet end_ptr-packet headers traits.tlvs d
    first_tlv = record {
      split = packet_split ∙ unfold encode_snac in simp append_assoc;
      fits = fits;
      small = omega (arith, small, length-encode_snac e traits request_id d);
    }

    pub begin-packet : begin e packet ≡ ok (iterator traits.tlvs d (length headers))
    unfolding begin
    begin-packet =
        rw length-headers
          (iterator_at-Cursor e packet end_ptr-packet headers traits.tlvs d first_tlv)

    -- A packet that was built from fields that fit, with a SNAC below 2^16 bytes, is parsed, and as
    -- many TLVs are counted as were stored, if the fuel is more than their number.
    pub flap_parser-packet :
        (fuel : ℕ)
        → length traits.tlvs < fuel
        → flap_parser e fuel packet ≡ ok (record { stg = packet; tlv_count = length traits.tlvs })
    unfolding flap_parser calc_tlv_count
    flap_parser-packet fuel h = rw (
      bad_structure-packet,
      begin-packet,
      count_from-Cursor e packet end_ptr-packet headers traits.tlvs d fuel 0 first_tlv h,
      zero-add,
    )
