-- ===== src/Oscar/Flap/Layout.antt =====
-- The bytes of a FLAP packet, written down at once: what `add_data` of the builder leaves in the
-- storage, and when it throws.
use proxy_channels.Base.{
  ℕ, zero, suc, ◌+◌, ◌-◌, ◌^◌, ◌<◌, ◌≡◌, refl, ap, ◌∙◌, [], ◌∷◌, ◌++◌, Bytes, arith, length,
  length-append, length-replicate, take_all, drop, drop-length_append, append-nil, append_assoc, ok,
  err, snac_overflow, ◌>>=◌, bind_pair, replicate, ltb, if◌then◌else◌, false, Bool-cases, inl, inr,
}
use native.Mathlib.Nat.{mod-eq_of_lt}
use proxy_channels.Oscar.Endian.{Endian}
use proxy_channels.Oscar.Memory.Fills.{Fills, Fills-write, Fills-seq}
use proxy_channels.Oscar.Tlv.{stored}
use proxy_channels.Oscar.Tlv.Encoding.{length-stored}
use proxy_channels.Oscar.Proto.{FlapChannel, flap_channel_id, TlvData, SnacTraits}
use proxy_channels.Oscar.Snac.{
  snac_header_size, flap_mark, accumulate, snac_calc_size, resize, fill_header, store_all_data,
  snac_add_data,
}
use proxy_channels.Oscar.Snac.Layout.{
  encode_tlvs, encode_header, length-encode_header, accumulate-encode_tlvs, Fills-store_all_data,
  Fills-fill_header,
}
use proxy_channels.Oscar.Flap.{empty_flap, default_flags, store_flap_header, add_data}

drop_all : (n m : ℕ) → n ≡ m → drop n (replicate m (let z : ℕ = 0 in z)) ≡ []
drop_all n m h = rw (h, all m)
  where
    all : (k : ℕ) → drop k (replicate k (let z : ℕ = 0 in z)) ≡ []
    all zero = refl
    all (suc k) = all k

module _ (e : Endian) where
  unfoldable pub encode_snac : (tr : SnacTraits) → ℕ → TlvData tr.tlvs → Bytes
  encode_snac tr request_id d =
      encode_header e tr default_flags request_id ++ encode_tlvs e tr.tlvs d

  unfoldable pub encode_flap : FlapChannel → ℕ → Bytes → Bytes
  encode_flap channel sequence_number snac =
      flap_mark
      ∷ (flap_channel_id channel
          ∷ (stored e 2 sequence_number ++ (stored e 2 (length snac) ++ snac)))

  pub length-encode_snac :
      (tr : SnacTraits) (request_id : ℕ) (d : TlvData tr.tlvs)
      → length (encode_snac tr request_id d) ≡ 10 + length (encode_tlvs e tr.tlvs d)
  unfolding encode_snac
  length-encode_snac tr request_id d = omega (
    arith,
    length-append {0} (encode_header e tr default_flags request_id) (encode_tlvs e tr.tlvs d),
    length-encode_header e tr default_flags request_id,
  )

  resize-empty_flap : (n : ℕ) → resize (n + 6) empty_flap ≡ empty_flap ++ replicate n 0
  unfolding resize
  resize-empty_flap n = rw (take_all (n + 6) empty_flap (omega arith), sub) refl
    where
      sub : n + 6 - 6 ≡ n
      sub = omega arith

  -- The SNAC stands behind the room for the header of the packet.
  snac_add_data-encode_snac :
      (tr : SnacTraits) (request_id : ℕ) (d : TlvData tr.tlvs)
      → length (encode_snac tr request_id d) < 2 ^ 16
      → snac_add_data e tr default_flags request_id d empty_flap
        ≡ ok (length (encode_snac tr request_id d), empty_flap ++ encode_snac tr request_id d)
  unfolding snac_add_data snac_calc_size encode_snac
  snac_add_data-encode_snac tr request_id d small =
      rw (size, fits, mod-eq_of_lt small, resize-empty_flap (length snac))
        (bind_pair
          (fill_header e tr default_flags request_id 6 (empty_flap ++ replicate (length snac) 0))
          (store_all_data e tr.tlvs d 16) _ filled)
    where
      snac : Bytes
      snac = encode_snac tr request_id d

      size : accumulate snac_header_size tr.tlvs d ≡ length snac
      size =
          omega (arith, accumulate-encode_tlvs e 10 tr.tlvs d, length-encode_snac tr request_id d)

      fits : ltb (2 ^ 16 - 1) (length snac) ≡ false
      fits = ground arith

      both :
          Fills
            (λ s. fill_header e tr default_flags request_id 6 s >>= store_all_data e tr.tlvs d 16)
            empty_flap
            snac
      both =
          Fills-seq empty_flap (encode_header e tr default_flags request_id)
            (encode_tlvs e tr.tlvs d)
            (Fills-fill_header e empty_flap tr default_flags request_id 6 (omega arith))
            (Fills-store_all_data e (empty_flap ++ encode_header e tr default_flags request_id)
              tr.tlvs d 16
              (omega (
                arith,
                length-append {0} empty_flap (encode_header e tr default_flags request_id),
                length-encode_header e tr default_flags request_id,
              )))

      filled :
          (fill_header e tr default_flags request_id 6 (empty_flap ++ replicate (length snac) 0)
            >>= store_all_data e tr.tlvs d 16)
          ≡ ok (empty_flap ++ snac)
      filled =
          both.at_rest (replicate (length snac) 0)
            (omega (arith, length-replicate {0} (length snac) (let z : ℕ = 0 in z)))
          ∙ ap (λ l. ok (empty_flap ++ (snac ++ l))) (drop_all (length snac) (length snac) refl)
          ∙ ap (λ l. ok (empty_flap ++ l)) (append-nil snac)

  -- The header of the packet, over the room that was left for it.
  store_flap_header-encode_flap :
      (channel : FlapChannel) (sequence_number : ℕ) (snac : Bytes)
      → store_flap_header e channel sequence_number (length snac) (empty_flap ++ snac)
        ≡ ok (encode_flap channel sequence_number snac)
  unfolding store_flap_header encode_flap
  store_flap_header-encode_flap channel sequence_number snac =
      fills.at_rest (empty_flap ++ snac) (omega (arith, header_length))
      ∙ ap (λ l. ok (header ++ l)) (rw header_length (drop-length_append empty_flap snac))
      ∙ ap (λ l. ok (flap_mark ∷ (flap_channel_id channel ∷ l)))
          (append_assoc (stored e 2 sequence_number) (stored e 2 (length snac)) snac)
    where
      number : Bytes
      number = stored e 2 sequence_number

      size : Bytes
      size = stored e 2 (length snac)

      header : Bytes
      header = flap_mark ∷ (flap_channel_id channel ∷ (number ++ size))

      header_length : length header ≡ 6
      header_length = omega (
        arith,
        length-append {0} number size,
        length-stored e 2 sequence_number,
        length-stored e 2 (length snac),
      )

      marked : Bytes
      marked = flap_mark ∷ (flap_channel_id channel ∷ [])

      fills : Fills (store_flap_header e channel sequence_number (length snac)) [] header
      fills =
          Fills-seq [] (flap_mark ∷ []) (flap_channel_id channel ∷ (number ++ size))
            (Fills-write [] (flap_mark ∷ []) 0 refl)
            (Fills-seq (flap_mark ∷ []) (flap_channel_id channel ∷ []) (number ++ size)
              (Fills-write (flap_mark ∷ []) (flap_channel_id channel ∷ []) 1 refl)
              (Fills-seq marked number size (Fills-write marked number 2 refl) (
                Fills-write (marked ++ number) size 4 (
                  omega
                    (arith, length-append {0} marked number, length-stored e 2 sequence_number)))))

  -- From an empty builder, `add_data` gives the encoded packet, or throws if the SNAC does not fit in
  -- 16 bits.
  pub add_data-encode_flap :
      (channel : FlapChannel) (sequence_number : ℕ) (tr : SnacTraits) (request_id : ℕ)
      (d : TlvData tr.tlvs)
      → add_data e channel sequence_number tr request_id d empty_flap ≡ (
          if ltb (2 ^ 16 - 1) (length (encode_snac tr request_id d))
          then err snac_overflow
          else ok (encode_flap channel sequence_number (encode_snac tr request_id d)))
  unfolding add_data
  add_data-encode_flap channel sequence_number tr request_id d =
      elim (Bool-cases (ltb (2 ^ 16 - 1) (length snac))) [
        | inl over ↦ rw over (unfold snac_add_data snac_calc_size in rw (size, over))
        | inr fits ↦
            rw (fits, snac_add_data-encode_snac tr request_id d (ground arith))
              (store_flap_header-encode_flap channel sequence_number snac)
      ]
    where
      snac : Bytes
      snac = encode_snac tr request_id d

      size : accumulate snac_header_size tr.tlvs d ≡ length snac
      size =
          omega (arith, accumulate-encode_tlvs e 10 tr.tlvs d, length-encode_snac tr request_id d)
