-- ===== src/Oscar/Tlv/CArray.antt =====
-- oscar/tlv.h: C arrays, a pointer and a count. The objects that the pointer points to are a list; a
-- read behind its end is a fault.
use native.Mathlib.Nat.{mod-eq_of_lt, mul_comm, div-le_self, le-div_iff_mul-le}
use mathlib.Core.Path.{subst}
use proxy_channels.Base.{
  ℕ, zero, suc, ◌+◌, ◌-◌, ◌*◌, ◌/◌, ◌%◌, ◌^◌, ◌<◌, ◌≤◌, ◌≡◌, refl, sym, ap, ◌∙◌, List, [], ◌∷◌,
  ◌++◌, Bytes, none, some, ltb, lt→ltb, if◌then◌else◌, Result, ok, err, assertion, out_of_bounds,
  out_of_fuel, ◌>>=◌, bind_ext, length, get_elem?, take, drop, length-take, arith,
}
use proxy_channels.Oscar.Endian.{Endian}
use proxy_channels.Oscar.Memory.{Storage, write}
use proxy_channels.Oscar.Tlv.{
  vector, data_bytes, stored, set_type, set_data_size, store_items, store_data, create, get_value,
  get_array, tlv_header_size,
}
use proxy_channels.Oscar.Tlv.Encoding.{encode_tlv, length-encode_tlv, Fills-create}
use proxy_channels.Oscar.Tlv.RoundTrip.{AllBelow, get_value-encode_tlv}

-- _PData[i]
unfoldable pub item : List ℕ → ℕ → Result ℕ
item items i = elim (get_elem? items i) [ none ↦ err out_of_bounds | some v ↦ ok v ]

unfoldable pub calc_array_size : ℕ → ℕ → ℕ
calc_array_size w count = 2 * 2 + w * count

module _ (e : Endian) where
  unfoldable pub set_array_size : ℕ → ℕ → ℕ → Storage → Result Storage
  set_array_size w count at stg = write (at + 2) (stored e 2 (w * count % 2 ^ 16)) stg

  -- for (off = 0, i = 0; off < size; off += w, ++i); each round adds at least one byte to `off`
  unfoldable pub store_elements : ℕ → ℕ → ℕ → ℕ → ℕ → ℕ → List ℕ → Storage → Result Storage
  unfolding item
  store_elements zero w at off i size items stg = if ltb off size then err out_of_fuel else ok stg
  store_elements (suc fuel) w at off i size items stg =
      let more : Result Storage = (do
        v ← item items i
        stg' ← write (at + off) (stored e w v) stg
        store_elements fuel w at (off + w) (i + 1) size items stg') in
      if ltb off size then more else ok stg

  -- The count is a uint16_t, and so is the size.
  unfoldable pub store_data_array : ℕ → ℕ → List ℕ → ℕ → Storage → Result Storage
  unfolding store_elements
  store_data_array w at items count stg =
      let size = w * (count % 2 ^ 16) % 2 ^ 16 in
      store_elements size w (at + tlv_header_size) 0 0 size items stg

  unfoldable pub create_array : ℕ → ℕ → List ℕ → ℕ → ℕ → Storage → Result Storage
  unfolding set_type set_array_size store_data_array
  create_array type w items count at stg =
      let made : Result Storage = (do
        stg1 ← set_type e type at stg
        stg2 ← set_array_size w count at stg1
        store_data_array w at items count stg2) in
      if ltb count ((2 ^ 16 - 1) / w) then made else err assertion

-- The element at a place that the list has, and what is left behind it.
get_elem?-drop :
    (xs : List ℕ) (i : ℕ)
    → i < length xs
    → (v : ℕ) × ((get_elem? xs i ≡ some v) × (drop i xs ≡ v ∷ drop (suc i) xs))
get_elem?-drop [] i h = absurd (omega arith)
get_elem?-drop (x ∷ xs) zero h = (x, (refl, refl))
get_elem?-drop (x ∷ xs) (suc i) h = get_elem?-drop xs i (omega arith)

module _ (e : Endian) where
  -- The loop over the array is that over a container with the rest of its elements.
  store_elements-store_items :
      (n fuel w at off i size : ℕ) (items : List ℕ) (stg : Storage)
      → 0 < w
      → off + n * w ≡ size
      → i + n ≤ length items
      → size ≤ fuel + off
      → store_elements e fuel w at off i size items stg
        ≡ store_items e w (at + off) (take n (drop i items)) stg
  unfolding store_elements store_items item
  store_elements-store_items zero zero w at off i size items stg pos total there enough =
      ground arith
  store_elements-store_items zero (suc fuel) w at off i size items stg pos total there enough =
      ground arith
  store_elements-store_items (suc n) zero w at off i size items stg pos total there enough =
      absurd (omega arith)
  store_elements-store_items (suc n) (suc fuel) w at off i size items stg pos total there enough =
      let here = get_elem?-drop items i (omega arith) in
      let behind : at + (off + w) ≡ at + off + w = omega arith in
      let next : i + 1 ≡ suc i = omega arith in
      rw (lt→ltb off size (omega arith), item, here.1.0, here.1.1)
        (bind_ext (write (at + off) (stored e w here.0) stg) _ _ (λ s.
          store_elements-store_items n fuel w at (off + w) (i + 1) size items s pos (omega arith)
            (omega arith) (omega arith)
          ∙ ap (λ a. store_items e w a (take n (drop (i + 1) items)) s) behind
          ∙ ap (λ j. store_items e w (at + off + w) (take n (drop j items)) s) next))

  -- With fewer than (2^16 - 1) / w elements, all of which are there, it does what is done for a
  -- container of them.
  create_array-create :
      (type w at count : ℕ) (items : List ℕ) (stg : Storage)
      → 0 < w
      → count < (2 ^ 16 - 1) / w
      → count ≤ length items
      → create_array e type w items count at stg
        ≡ create e type (vector w) (take count items) at stg
  unfolding create_array create set_array_size set_data_size data_bytes store_data_array store_data
  create_array-create type w at count items stg pos few there =
      let all : length (take count items) ≡ count = omega (arith, length-take count items) in
      let below : count * w ≤ 2 ^ 16 - 1 = (le-div_iff_mul-le pos).0 (omega arith) in
      let short : count ≤ 2 ^ 16 - 1 = omega (arith, div-le_self (2 ^ 16 - 1) w) in
      let count' : count % 2 ^ 16 ≡ count = omega arith in
      let cut : w * (count % 2 ^ 16) % 2 ^ 16 ≡ count * w =
        ap (λ n. w * n % 2 ^ 16) count'
        ∙ ap (λ n. n % 2 ^ 16) (mul_comm w count)
        ∙ mod-eq_of_lt (omega arith) in
      let size : w * count % 2 ^ 16 ≡ length (take count items) * w % 2 ^ 16 =
        ap (λ n. n % 2 ^ 16) (mul_comm w count) ∙ ap (λ n. n * w % 2 ^ 16) (sym all) in
      let start : at + tlv_header_size + 0 ≡ at + tlv_header_size = omega arith in
      rw (lt→ltb count ((2 ^ 16 - 1) / w) few) (
        bind_ext (set_type e type at stg) _ _ (λ s1.
          ap
            (λ n. write (at + 2) (stored e 2 n) s1 >>= λ s2. store_data_array e w at items count s2)
            size
          ∙ bind_ext (write (at + 2) (stored e 2 (length (take count items) * w % 2 ^ 16)) s1) _ _
              (λ s2.
                store_elements-store_items count (w * (count % 2 ^ 16) % 2 ^ 16) w
                  (at + tlv_header_size) 0 0 (w * (count % 2 ^ 16) % 2 ^ 16) items s2 pos
                  (omega (arith, cut)) (omega arith) (omega arith)
                ∙ ap (λ a. store_items e w a (take count items) s2) start)))

  calc_array_size-length :
      (type w count : ℕ) (items : List ℕ)
      → count ≤ length items
      → length (encode_tlv e type (vector w) (take count items)) ≡ calc_array_size w count
  unfolding calc_array_size data_bytes
  calc_array_size-length type w count items there =
      let all : length (take count items) ≡ count = omega (arith, length-take count items) in
      length-encode_tlv e type (vector w) (take count items)
      ∙ ap (λ n. 4 + n * w) all
      ∙ ap (λ n. 4 + n) (mul_comm count w)

  -- A C array of elements that fit, fewer than (2^16 - 1) / w, all of which are there, is stored in the
  -- bytes that calc_size gives, if the storage has them behind `p`; the rest of the storage stays, and
  -- get_array reads the elements back.
  pub get_array-create_array :
      (p q : Bytes) (type w count : ℕ) (items : List ℕ)
      → 0 < w
      → count < (2 ^ 16 - 1) / w
      → count ≤ length items
      → AllBelow (256 ^ w) (take count items)
      → calc_array_size w count ≤ length q
      → (tlv : Bytes) × ((length tlv ≡ calc_array_size w count)
          × (create_array e type w items count (length p) (p ++ q)
              ≡ ok (p ++ (tlv ++ drop (calc_array_size w count) q)))
          × (get_array e w (length p) (p ++ (tlv ++ drop (calc_array_size w count) q))
              ≡ ok (take count items)))
  unfolding get_array get_value
  get_array-create_array p q type w count items pos few there small room =
      let some_items = take count items in
      let tlv = encode_tlv e type (vector w) some_items in
      let size = calc_array_size-length type w count items there in
      let all : length some_items ≡ count = omega (arith, length-take count items) in
      let below : count * w ≤ 2 ^ 16 - 1 = (le-div_iff_mul-le pos).0 (omega arith) in
      let fits : length some_items * w < 2 ^ 16 =
        subst (λ n. n * w < 2 ^ 16) (sym all) (omega arith) in
      (
        tlv,
        (
          size,
          create_array-create type w (length p) count items (p ++ q) pos few there
              ∙ (Fills-create e p type (vector w) some_items (length p) refl).at_rest q
                  (omega (arith, size))
              ∙ ap (λ n. ok (p ++ (tlv ++ drop n q))) size,
          get_value-encode_tlv e p (drop (calc_array_size w count) q) type (vector w) some_items _
              (length p) refl refl (pos, fits, small),
        ),
      )
