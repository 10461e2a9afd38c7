-- ===== src/Oscar/Snac.antt =====
-- oscar/snac.h and snac_base of oscar/flap_builder.cpp: a SNAC is a header and a sequence of TLVs.
pub mod Layout
use proxy_channels.Base.{
  ℕ, ◌+◌, ◌*◌, ◌-◌, ◌%◌, ◌^◌, List, [], ◌∷◌, ◌++◌, Bool, ltb, ◌==◌, ◌&&◌, if◌then◌else◌, Result, ok,
  err, snac_overflow, ◌>>=◌, length, take, replicate,
}
use proxy_channels.Oscar.Endian.{Endian}
use proxy_channels.Oscar.Memory.{Storage, write}
use proxy_channels.Oscar.Tlv.{calc_size, stored, create}
use proxy_channels.Oscar.Proto.{
  TlvTraits, TlvData, SnacTraits, tlv_type_id, snac_service_id, snac_subtype_id,
}

abbrev pub snac_header_size : ℕ
snac_header_size = 2 * 3 + 4

abbrev pub flap_header_size : ℕ
flap_header_size = 1 * 2 + 2 * 2

abbrev pub flap_mark : ℕ
flap_mark = 0x2a

-- The counter behind the request ids; a debug build starts it at 111.
unfoldable pub generate_request_id : Bool → ℕ → ℕ × ℕ
generate_request_id debug num =
    let id = if debug && num == 0 then 111 else num in (id, (id + 1) % 2 ^ 32)

-- std::accumulate over the sizes of the elements
unfoldable pub accumulate : ℕ → (ts : List TlvTraits) → TlvData ts → ℕ
accumulate size [] d = size
accumulate size (t ∷ ts) (x, d) = accumulate (size + calc_size t.kind x) ts d

unfoldable pub snac_calc_size : (ts : List TlvTraits) → TlvData ts → Result ℕ
unfolding accumulate
snac_calc_size ts d =
    let size = accumulate snac_header_size ts d in
    if ltb (2 ^ 16 - 1) size then err snac_overflow else ok size

-- std::vector::resize, with zeros behind the old contents
unfoldable pub resize : ℕ → Storage → Storage
resize n stg = take n stg ++ replicate (n - length stg) 0

module _ (e : Endian) where
  unfoldable pub fill_header : SnacTraits → ℕ → ℕ → ℕ → Storage → Result Storage
  fill_header tr flags request_id at stg = do
    stg1 ← write at (stored e 2 (snac_service_id tr.service)) stg
    stg2 ← write (at + 2) (stored e 2 (snac_subtype_id tr.subtype)) stg1
    stg3 ← write (at + 4) (stored e 2 flags) stg2
    write (at + 6) (stored e 4 request_id) stg3

  unfoldable pub store_all_data : (ts : List TlvTraits) → TlvData ts → ℕ → Storage → Result Storage
  store_all_data [] d at stg = ok stg
  store_all_data (t ∷ ts) (x, d) at stg = do
    stg' ← create e (tlv_type_id t.tlv_type) t.kind x at stg
    store_all_data ts d (at + calc_size t.kind x) stg'

  -- The result of `get_size` and the storage behind the call.
  unfoldable pub snac_add_data :
      (tr : SnacTraits) → ℕ → ℕ → TlvData tr.tlvs → Storage → Result (ℕ × Storage)
  unfolding snac_calc_size resize fill_header store_all_data
  snac_add_data tr flags request_id d stg = do
    size ← snac_calc_size tr.tlvs d
    stg1 ←
        fill_header tr flags request_id flap_header_size
          (resize (size % 2 ^ 16 + flap_header_size) stg)
    stg2 ← store_all_data tr.tlvs d (flap_header_size + snac_header_size) stg1
    ok (size % 2 ^ 16, stg2)
