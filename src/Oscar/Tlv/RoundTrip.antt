-- ===== src/Oscar/Tlv/RoundTrip.antt =====
-- The getters of oscar/tlv.h read back what `create` stored.
use native.Mathlib.Nat.{mod-eq_of_lt}
use proxy_channels.Base.{
  ℕ, zero, suc, ◌+◌, ◌*◌, ◌%◌, ◌^◌, ◌<◌, ◌≤◌, ◌≡◌, refl, sym, ap, ◌∙◌, List, [], ◌∷◌, ◌++◌, Bytes,
  arith, length, length-append, append_assoc, ok, lt→ltb, eq→==,
}
use proxy_channels.Oscar.Endian.{Endian, object_value, object_value-object_bytes}
use proxy_channels.Oscar.Memory.{Storage, read_middle}
use proxy_channels.Oscar.Tlv.{
  Kind, string, integral, vector, DataType, data_bytes, stored, get_type, get_data_size, get_size,
  get_value_item, get_items, get_value,
}
use proxy_channels.Oscar.Tlv.Encoding.{
  encode_items, payload, encode_tlv, length-stored, length-payload,
}

abbrev pub AllBelow : ℕ → List ℕ → Type 0
AllBelow b [] = Unit
AllBelow b (v ∷ vs) = (v < b) × AllBelow b vs

-- The values that a field can hold: its size fits in 16 bits and its integers in their width.
abbrev pub Fits : (k : Kind) → DataType k → Type 0
Fits string s = length s < 2 ^ 16
Fits (integral w) v = (w < 2 ^ 16) × (v < 256 ^ w)
Fits (vector w) vs = (0 < w) × (length vs * w < 2 ^ 16) × AllBelow (256 ^ w) vs

pub data_bytes-lt : (k : Kind) (v : DataType k) → Fits k v → data_bytes k v < 2 ^ 16
unfolding data_bytes
data_bytes-lt string s h = h
data_bytes-lt (integral w) v h = h.0
data_bytes-lt (vector w) vs h = h.1

module _ (e : Endian) where
  pub get_value_item-stored :
      (p s stg : Bytes) (at w v : ℕ)
      → stg ≡ p ++ (stored e w v ++ s)
      → at ≡ length p
      → v < 256 ^ w
      → get_value_item e w at stg ≡ ok v
  unfolding get_value_item stored
  get_value_item-stored p s stg at w v h i small =
      rw (read_middle p (stored e w v) s stg at w h i (sym (length-stored e w v))) (ap ok back)
    where
      back : e.big_to_native w (object_value (stored e w v)) ≡ v
      back =
          ap (e.big_to_native w)
            (object_value-object_bytes w (e.native_to_big w v) (e.native_to_big-lt w v small))
          ∙ e.big_to_native-native_to_big w v small

  -- The type and the size, before the value.
  abbrev tlv_head : ℕ → (k : Kind) → DataType k → Bytes
  tlv_head type k v = stored e 2 type ++ stored e 2 (data_bytes k v % 2 ^ 16)

  -- The four parts of a storage that holds a TLV behind `p`.
  module _ (p s : Bytes) (type : ℕ) (k : Kind) (v : DataType k) (stg : Storage) (at : ℕ)
      (split : stg ≡ p ++ (encode_tlv e type k v ++ s)) (here : at ≡ length p) where
    pub get_type-encode_tlv : type < 2 ^ 16 → get_type e at stg ≡ ok type
    unfolding get_type encode_tlv get_value_item
    get_type-encode_tlv h =
        get_value_item-stored p (size_bytes ++ payload e k v ++ s) stg at 2 type
          (split ∙ ap (λ l. p ++ l) assoc) here h
      where
        size_bytes : Bytes
        size_bytes = stored e 2 (data_bytes k v % 2 ^ 16)

        assoc :
            (stored e 2 type ++ (size_bytes ++ payload e k v)) ++ s
            ≡ stored e 2 type ++ (size_bytes ++ payload e k v ++ s)
        assoc = simp append_assoc

    pub get_data_size-encode_tlv : Fits k v → get_data_size e at stg ≡ ok (data_bytes k v)
    unfolding get_data_size encode_tlv get_value_item
    get_data_size-encode_tlv h =
        get_value_item-stored (p ++ stored e 2 type) (payload e k v ++ s) stg (at + 2) 2
          (data_bytes k v % 2 ^ 16) (split ∙ assoc)
          (omega (arith, length-append {0} p (stored e 2 type), length-stored e 2 type))
          (omega arith)
        ∙ ap ok (mod-eq_of_lt (data_bytes-lt k v h))
      where
        assoc :
            p ++ ((stored e 2 type ++ (stored e 2 (data_bytes k v % 2 ^ 16) ++ payload e k v)) ++ s)
            ≡ (p ++ stored e 2 type)
              ++ (stored e 2 (data_bytes k v % 2 ^ 16) ++ (payload e k v ++ s))
        assoc = simp append_assoc

    pub get_size-encode_tlv :
        Fits k v → 4 + data_bytes k v < 2 ^ 16 → get_size e at stg ≡ ok (4 + data_bytes k v)
    unfolding get_size
    get_size-encode_tlv h small = rw (get_data_size-encode_tlv h, mod-eq_of_lt small)

    payload_split : stg ≡ (p ++ tlv_head type k v) ++ (payload e k v ++ s)
    unfolding encode_tlv
    payload_split = split ∙ simp append_assoc

    payload_here : at + 4 ≡ length (p ++ tlv_head type k v)
    payload_here = omega (
      arith,
      length-append {0} p (tlv_head type k v),
      length-append {0} (stored e 2 type) (stored e 2 (data_bytes k v % 2 ^ 16)),
      length-stored e 2 type,
      length-stored e 2 (data_bytes k v % 2 ^ 16),
    )

  get_items-encode_items :
      (p s stg : Bytes) (w at off len fuel : ℕ) (vs : List ℕ)
      → stg ≡ p ++ (encode_items e w vs ++ s)
      → at + off ≡ length p
      → off + length vs * w ≡ len
      → len ≤ fuel + off
      → 0 < w
      → AllBelow (256 ^ w) vs
      → get_items e fuel w at off len stg ≡ ok vs
  unfolding get_items encode_items
  get_items-encode_items p s stg w at off len zero [] split here total enough pos small =
      ground arith
  get_items-encode_items p s stg w at off len zero (v ∷ vs) split here total enough pos small =
      absurd (omega arith)
  get_items-encode_items p s stg w at off len (suc fuel) [] split here total enough pos small =
      ground arith
  get_items-encode_items p s stg w at off len (suc fuel) (v ∷ vs) split here total enough pos
        small =
      rw (lt→ltb off len (omega arith)) (
        rw
          (get_value_item-stored p (encode_items e w vs ++ s) stg (at + off) w v first here small.0)
          (rw (
            get_items-encode_items (p ++ stored e w v) s stg w at (off + w) len fuel vs
              (split ∙ regroup)
              (omega (arith, length-append {0} p (stored e w v), length-stored e w v)) (omega arith)
              (omega arith) pos small.1)))
    where
      first : stg ≡ p ++ (stored e w v ++ (encode_items e w vs ++ s))
      first = split ∙ simp append_assoc

      regroup :
          p ++ ((stored e w v ++ encode_items e w vs) ++ s)
          ≡ (p ++ stored e w v) ++ (encode_items e w vs ++ s)
      regroup = simp append_assoc

  -- Every kind of value that fits is read back from its TLV, wherever the TLV stands in a storage.
  pub get_value-encode_tlv :
      (p s : Bytes) (type : ℕ) (k : Kind) (v : DataType k) (stg : Storage) (at : ℕ)
      → stg ≡ p ++ (encode_tlv e type k v ++ s)
      → at ≡ length p
      → Fits k v
      → get_value e k at stg ≡ ok v
  unfolding get_value payload
  get_value-encode_tlv p s type string v stg at split here fits =
      rw (get_data_size-encode_tlv p s type string v stg at split here fits) (
        read_middle (p ++ tlv_head type string v) (payload e string v) s stg (at + 4)
          (data_bytes string v) (payload_split p s type string v stg at split here)
          (payload_here p s type string v stg at split here) (sym (length-payload e string v)))
  get_value-encode_tlv p s type (integral w) v stg at split here fits =
      rw (get_data_size-encode_tlv p s type (integral w) v stg at split here fits) (
        unfold data_bytes in
        rw (eq→== w w refl) (
          get_value_item-stored (p ++ tlv_head type (integral w) v) s stg (at + 4) w v
            (payload_split p s type (integral w) v stg at split here)
            (payload_here p s type (integral w) v stg at split here) fits.1))
  get_value-encode_tlv p s type (vector w) v stg at split here fits =
      rw (get_data_size-encode_tlv p s type (vector w) v stg at split here fits) (
        get_items-encode_items (p ++ tlv_head type (vector w) v) s stg w (at + 4) 0
          (data_bytes (vector w) v) (data_bytes (vector w) v) v
          (payload_split p s type (vector w) v stg at split here)
          (omega (arith, payload_here p s type (vector w) v stg at split here))
          (unfold data_bytes in omega arith) (omega arith) fits.0 fits.2)
