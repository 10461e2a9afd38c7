-- ===== src/Oscar/Snac/Layout.antt =====
-- The bytes of a SNAC, and the writers of oscar/snac.h that produce them.
use proxy_channels.Base.{
  ℕ, ◌+◌, ◌≡◌, refl, List, [], ◌∷◌, ◌++◌, Bytes, arith, length, length-append,
}
use proxy_channels.Oscar.Endian.{Endian}
use proxy_channels.Oscar.Memory.Fills.{Fills, Fills-write, Fills-seq}
use proxy_channels.Oscar.Tlv.{calc_size, stored}
use proxy_channels.Oscar.Tlv.Encoding.{
  encode_tlv, length-stored, calc_size-encode_tlv, Fills-create,
}
use proxy_channels.Oscar.Proto.{
  TlvTraits, TlvData, SnacTraits, tlv_type_id, snac_service_id, snac_subtype_id,
}
use proxy_channels.Oscar.Snac.{accumulate, fill_header, store_all_data}

module _ (e : Endian) where
  unfoldable pub encode_tlvs : (ts : List TlvTraits) → TlvData ts → Bytes
  encode_tlvs [] d = []
  encode_tlvs (t ∷ ts) (x, d) = encode_tlv e (tlv_type_id t.tlv_type) t.kind x ++ encode_tlvs ts d

  unfoldable pub encode_header : SnacTraits → ℕ → ℕ → Bytes
  encode_header tr flags request_id =
      stored e 2 (snac_service_id tr.service)
      ++ (stored e 2 (snac_subtype_id tr.subtype) ++ (stored e 2 flags ++ stored e 4 request_id))

  pub length-encode_header :
      (tr : SnacTraits) (flags request_id : ℕ) → length (encode_header tr flags request_id) ≡ 10
  unfolding encode_header
  length-encode_header tr flags request_id = omega (
    arith,
    length-append {0} (stored e 2 (snac_service_id tr.service)) _,
    length-append {0} (stored e 2 (snac_subtype_id tr.subtype)) _,
    length-append {0} (stored e 2 flags) _,
    length-stored e 2 (snac_service_id tr.service),
    length-stored e 2 (snac_subtype_id tr.subtype),
    length-stored e 2 flags,
    length-stored e 4 request_id,
  )

  -- The computed size of a SNAC is that of its TLVs, behind what is counted before.
  pub accumulate-encode_tlvs :
      (n : ℕ) (ts : List TlvTraits) (d : TlvData ts)
      → accumulate n ts d ≡ n + length (encode_tlvs ts d)
  unfolding accumulate encode_tlvs
  accumulate-encode_tlvs n [] d = omega arith
  accumulate-encode_tlvs n (t ∷ ts) (x, d) = omega (
    arith,
    accumulate-encode_tlvs (n + calc_size t.kind x) ts d,
    length-append {0} (encode_tlv e (tlv_type_id t.tlv_type) t.kind x) (encode_tlvs ts d),
    calc_size-encode_tlv e (tlv_type_id t.tlv_type) t.kind x,
  )

  pub Fills-store_all_data :
      (p : Bytes) (ts : List TlvTraits) (d : TlvData ts) (at : ℕ)
      → at ≡ length p
      → Fills (store_all_data e ts d at) p (encode_tlvs ts d)
  unfolding store_all_data encode_tlvs
  Fills-store_all_data p [] d at h = record { at_rest = λ q _. refl }
  Fills-store_all_data p (t ∷ ts) (x, d) at h =
      Fills-seq p tlv (encode_tlvs ts d) (Fills-create e p (tlv_type_id t.tlv_type) t.kind x at h) (
        Fills-store_all_data (p ++ tlv) ts d (at + calc_size t.kind x) (
          omega (
            arith,
            length-append {0} p tlv,
            calc_size-encode_tlv e (tlv_type_id t.tlv_type) t.kind x,
          )))
    where
      tlv : Bytes
      tlv = encode_tlv e (tlv_type_id t.tlv_type) t.kind x

  pub Fills-fill_header :
      (p : Bytes) (tr : SnacTraits) (flags request_id at : ℕ)
      → at ≡ length p
      → Fills (fill_header e tr flags request_id at) p (encode_header tr flags request_id)
  unfolding fill_header encode_header
  Fills-fill_header p tr flags request_id at h =
      Fills-seq p a (b ++ (c ++ d)) (Fills-write p a at h) (
        Fills-seq (p ++ a) b (c ++ d) (Fills-write (p ++ a) b (at + 2) at_b) (
          Fills-seq ((p ++ a) ++ b) c d (Fills-write ((p ++ a) ++ b) c (at + 4) at_c)
            (Fills-write (((p ++ a) ++ b) ++ c) d (at + 6) at_d)))
    where
      a : Bytes
      a = stored e 2 (snac_service_id tr.service)

      b : Bytes
      b = stored e 2 (snac_subtype_id tr.subtype)

      c : Bytes
      c = stored e 2 flags

      d : Bytes
      d = stored e 4 request_id

      at_b : at + 2 ≡ length (p ++ a)
      at_b = omega (arith, length-append {0} p a, length-stored e 2 (snac_service_id tr.service))

      at_c : at + 4 ≡ length ((p ++ a) ++ b)
      at_c = omega (
        arith,
        at_b,
        length-append {0} (p ++ a) b,
        length-stored e 2 (snac_subtype_id tr.subtype),
      )

      at_d : at + 6 ≡ length (((p ++ a) ++ b) ++ c)
      at_d = omega (arith, at_c, length-append {0} ((p ++ a) ++ b) c, length-stored e 2 flags)
