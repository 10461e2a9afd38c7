-- ===== src/Oscar/Tlv.antt =====
-- oscar/tlv.h: type-length-value fields in a storage. A type T of the templates is a `Kind`; the
-- enums are stored as their underlying integers, and a floating-point number is the integer of its bits.
pub mod CArray
pub mod Encoding
pub mod RoundTrip
use proxy_channels.Base.{
  ℕ, zero, suc, ◌+◌, ◌*◌, ◌%◌, ◌^◌, List, [], ◌∷◌, Bytes, ltb, ◌==◌, if◌then◌else◌, Result, ok, err,
  assertion, out_of_fuel, ◌>>=◌, length,
}
use proxy_channels.Oscar.Endian.{Endian, object_bytes, object_value}
use proxy_channels.Oscar.Memory.{Storage, read, write}

-- The types that the templates are used at, integers and the elements of containers by `sizeof`.
pub data Kind : Type 0 where
  string : Kind
  integral : ℕ → Kind
  vector : ℕ → Kind

-- An integer is its bit pattern.
abbrev pub DataType : Kind → Type 0
DataType string = Bytes
DataType (integral w) = ℕ
DataType (vector w) = List ℕ

abbrev pub tlv_header_size : ℕ
tlv_header_size = 2 * 2

-- sizeof(_Data), or _Data.size() * sizeof(value_type)
unfoldable pub data_bytes : (k : Kind) → DataType k → ℕ
data_bytes string s = length s
data_bytes (integral w) v = w
data_bytes (vector w) vs = length vs * w

unfoldable pub calc_size : (k : Kind) → DataType k → ℕ
unfolding data_bytes
calc_size string s = 2 * 2 + length s
calc_size (integral w) v = 2 * 2 + w
calc_size (vector w) vs = 2 * 2 + length vs * w

module _ (e : Endian) where
  -- The bytes that `memcpy` takes from an integer in network order.
  unfoldable pub stored : ℕ → ℕ → Bytes
  stored w v = object_bytes w (e.native_to_big w v)

  unfoldable pub set_type : ℕ → ℕ → Storage → Result Storage
  set_type type at stg = write at (stored 2 type) stg

  unfoldable pub set_data_size : (k : Kind) → DataType k → ℕ → Storage → Result Storage
  set_data_size k v at stg = write (at + 2) (stored 2 (data_bytes k v % 2 ^ 16)) stg

  -- The loop over a container.
  unfoldable pub store_items : ℕ → ℕ → List ℕ → Storage → Result Storage
  store_items w at [] stg = ok stg
  store_items w at (v ∷ vs) stg = do
    stg' ← write at (stored w v) stg
    store_items w (at + w) vs stg'

  unfoldable pub store_data : (k : Kind) → ℕ → DataType k → Storage → Result Storage
  unfolding store_items
  store_data string at s stg = write at s stg
  store_data (integral w) at v stg = write at (stored w v) stg
  store_data (vector w) at vs stg = store_items w at vs stg

  unfoldable pub create : ℕ → (k : Kind) → DataType k → ℕ → Storage → Result Storage
  unfolding set_type set_data_size store_data
  create type k v at stg = do
    stg1 ← set_type type at stg
    stg2 ← set_data_size k v at stg1
    store_data k (at + tlv_header_size) v stg2

  unfoldable pub get_type : ℕ → Storage → Result ℕ
  get_type at stg = do bs ← read at 2 stg; ok (e.big_to_native 2 (object_value bs))

  unfoldable pub get_data_size : ℕ → Storage → Result ℕ
  get_data_size at stg = do bs ← read (at + 2) 2 stg; ok (e.big_to_native 2 (object_value bs))

  -- The sum is cut to the returned uint16_t.
  unfoldable pub get_size : ℕ → Storage → Result ℕ
  unfolding get_data_size
  get_size at stg = do n ← get_data_size at stg; ok ((tlv_header_size + n) % 2 ^ 16)

  unfoldable pub get_value_item : ℕ → ℕ → Storage → Result ℕ
  get_value_item w at stg = do bs ← read at w stg; ok (e.big_to_native w (object_value bs))

  -- for (off = 0; off < len; off += w); each round adds at least one byte to `off`
  unfoldable pub get_items : ℕ → ℕ → ℕ → ℕ → ℕ → Storage → Result (List ℕ)
  unfolding get_value_item
  get_items zero w at off len stg = if ltb off len then err out_of_fuel else ok []
  get_items (suc fuel) w at off len stg =
      let more : Result (List ℕ) = (do
        v ← get_value_item w (at + off) stg
        vs ← get_items fuel w at (off + w) len stg
        ok (v ∷ vs)) in
      if ltb off len then more else ok []

  unfoldable pub get_value : (k : Kind) → ℕ → Storage → Result (DataType k)
  unfolding get_data_size get_items get_value_item
  get_value string at stg = do len ← get_data_size at stg; read (at + tlv_header_size) len stg
  get_value (integral w) at stg = do
    len ← get_data_size at stg
    if w == len then get_value_item w (at + tlv_header_size) stg else err assertion
  get_value (vector w) at stg = do
    len ← get_data_size at stg
    get_items len w (at + tlv_header_size) 0 len stg

  -- The loop of `get_array` is that of `get_value` at a container.
  unfoldable pub get_array : ℕ → ℕ → Storage → Result (List ℕ)
  unfolding get_data_size get_items
  get_array w at stg = do
    len ← get_data_size at stg
    get_items len w (at + tlv_header_size) 0 len stg
