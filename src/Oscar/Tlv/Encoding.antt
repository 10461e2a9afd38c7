-- ===== src/Oscar/Tlv/Encoding.antt =====
-- The bytes of a TLV, written down at once: what `create` leaves in the storage.
use proxy_channels.Base.{
  ℕ, ◌+◌, ◌*◌, ◌%◌, ◌^◌, ◌≡◌, refl, List, [], ◌∷◌, ◌++◌, Bytes, arith, length, length-append,
}
use proxy_channels.Oscar.Endian.{Endian, length-object_bytes}
use proxy_channels.Oscar.Memory.Fills.{Fills, Fills-write, Fills-seq}
use proxy_channels.Oscar.Tlv.{
  Kind, string, integral, vector, DataType, data_bytes, calc_size, stored, store_items, store_data,
  create,
}

module _ (e : Endian) where
  unfoldable pub encode_items : ℕ → List ℕ → Bytes
  encode_items w [] = []
  encode_items w (v ∷ vs) = stored e w v ++ encode_items w vs

  unfoldable pub payload : (k : Kind) → DataType k → Bytes
  unfolding encode_items
  payload string s = s
  payload (integral w) v = stored e w v
  payload (vector w) vs = encode_items w vs

  unfoldable pub encode_tlv : ℕ → (k : Kind) → DataType k → Bytes
  encode_tlv type k v = stored e 2 type ++ (stored e 2 (data_bytes k v % 2 ^ 16) ++ payload k v)

  pub length-stored : (w v : ℕ) → length (stored e w v) ≡ w
  unfolding stored
  length-stored w v = length-object_bytes w (e.native_to_big w v)

  length-encode_items : (w : ℕ) (vs : List ℕ) → length (encode_items w vs) ≡ length vs * w
  unfolding encode_items
  length-encode_items w [] = omega arith
  length-encode_items w (v ∷ vs) = grind (
    arith,
    length-append (stored e w v) (encode_items w vs),
    length-stored w v,
    length-encode_items w vs,
  )

  pub length-payload : (k : Kind) (v : DataType k) → length (payload k v) ≡ data_bytes k v
  unfolding payload data_bytes
  length-payload string s = refl
  length-payload (integral w) v = length-stored w v
  length-payload (vector w) vs = length-encode_items w vs

  pub length-encode_tlv :
      (type : ℕ) (k : Kind) (v : DataType k) → length (encode_tlv type k v) ≡ 4 + data_bytes k v
  unfolding encode_tlv
  length-encode_tlv type k v = omega (
    arith,
    length-append {0} (stored e 2 type) (stored e 2 (data_bytes k v % 2 ^ 16) ++ payload k v),
    length-append {0} (stored e 2 (data_bytes k v % 2 ^ 16)) (payload k v),
    length-stored 2 type,
    length-stored 2 (data_bytes k v % 2 ^ 16),
    length-payload k v,
  )

  -- The size that is reserved for a field is the size of its bytes.
  pub calc_size-encode_tlv :
      (type : ℕ) (k : Kind) (v : DataType k) → calc_size k v ≡ length (encode_tlv type k v)
  unfolding calc_size data_bytes
  calc_size-encode_tlv type string s = omega (arith, length-encode_tlv type string s)
  calc_size-encode_tlv type (integral w) v = omega (arith, length-encode_tlv type (integral w) v)
  calc_size-encode_tlv type (vector w) vs = omega (arith, length-encode_tlv type (vector w) vs)

  Fills-store_items :
      (p : Bytes) (w at : ℕ) (vs : List ℕ)
      → at ≡ length p
      → Fills (store_items e w at vs) p (encode_items w vs)
  unfolding store_items encode_items
  Fills-store_items p w at [] h = record { at_rest = λ q _. refl }
  Fills-store_items p w at (v ∷ vs) h =
      Fills-seq p (stored e w v) (encode_items w vs) (Fills-write p (stored e w v) at h) (
        Fills-store_items (p ++ stored e w v) w (at + w) vs
          (omega (arith, length-append {0} p (stored e w v), length-stored w v)))

  Fills-store_data :
      (p : Bytes) (k : Kind) (at : ℕ) (v : DataType k)
      → at ≡ length p
      → Fills (store_data e k at v) p (payload k v)
  unfolding store_data payload
  Fills-store_data p string at s h = Fills-write p s at h
  Fills-store_data p (integral w) at v h = Fills-write p (stored e w v) at h
  Fills-store_data p (vector w) at vs h = Fills-store_items p w at vs h

  -- `create` leaves the bytes of the TLV in the storage.
  pub Fills-create :
      (p : Bytes) (type : ℕ) (k : Kind) (v : DataType k) (at : ℕ)
      → at ≡ length p
      → Fills (create e type k v at) p (encode_tlv type k v)
  unfolding create encode_tlv
  Fills-create p type k v at h =
      Fills-seq p type_bytes (size_bytes ++ payload k v) (Fills-write p type_bytes at h) (
        Fills-seq (p ++ type_bytes) size_bytes (payload k v)
          (Fills-write (p ++ type_bytes) size_bytes (at + 2) behind_type)
          (Fills-store_data ((p ++ type_bytes) ++ size_bytes) k (at + 4) v behind_size))
    where
      type_bytes : Bytes
      type_bytes = stored e 2 type

      size_bytes : Bytes
      size_bytes = stored e 2 (data_bytes k v % 2 ^ 16)

      behind_type : at + 2 ≡ length (p ++ type_bytes)
      behind_type = omega (arith, length-append {0} p type_bytes, length-stored 2 type)

      behind_size : at + 4 ≡ length ((p ++ type_bytes) ++ size_bytes)
      behind_size = omega (
        arith,
        behind_type,
        length-append {0} (p ++ type_bytes) size_bytes,
        length-stored 2 (data_bytes k v % 2 ^ 16),
      )
