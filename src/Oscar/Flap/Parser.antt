-- ===== src/Oscar/Flap/Parser.antt =====
-- oscar/flap_parser.h and flap_parser.cpp: a view of a received packet. Pointers are offsets into
-- the storage, which the parser copies; the loop that counts the TLVs runs on fuel.
pub mod Diverge
use proxy_channels.Base.{
  ℕ, zero, suc, ◌+◌, ◌*◌, Bool, true, List, [], ◌∷◌, ◌&&◌, ◌||◌, not, ltb, leb, ◌==◌, if◌then◌else◌,
  Result, ok, err, flap_structure, snac_structure, snac_iterate, out_of_bounds, out_of_fuel, ◌>>=◌,
  length,
}
use proxy_channels.Oscar.Endian.{Endian}
use proxy_channels.Oscar.Memory.{Storage, read}
use proxy_channels.Oscar.Tlv.{get_value_item, get_size}
use proxy_channels.Oscar.Proto.{flap_channel_begin, flap_channel_end}
use proxy_channels.Oscar.Snac.{flap_header_size, snac_header_size, flap_mark}

abbrev pub flap_data_size_offset : ℕ
flap_data_size_offset = 2 * 1 + 2

abbrev pub flap_channel_offset : ℕ
flap_channel_offset = 1

pub record TlvIterator : Type 0 where
  pub begin : ℕ
  pub end : ℕ

pub record FlapParser : Type 0 where
  pub stg : Storage
  pub tlv_count : ℕ

-- stg[at]
unfoldable pub byte_at : ℕ → Storage → Result ℕ
byte_at at [] = err out_of_bounds
byte_at zero (b ∷ stg) = ok b
byte_at (suc at) (b ∷ stg) = byte_at at stg

unfoldable pub get_channel : Storage → Result ℕ
unfolding byte_at
get_channel stg = byte_at flap_channel_offset stg

module _ (e : Endian) where
  unfoldable pub get_snac_size : Storage → Result ℕ
  get_snac_size stg = get_value_item e 2 flap_data_size_offset stg

  unfoldable pub get_snac_service : Storage → Result ℕ
  get_snac_service stg = get_value_item e 2 flap_header_size stg

  unfoldable pub get_snac_subtype : Storage → Result ℕ
  get_snac_subtype stg = get_value_item e 2 (flap_header_size + 2) stg

  unfoldable pub get_snac_flags : Storage → Result ℕ
  get_snac_flags stg = get_value_item e 2 (flap_header_size + 2 * 2) stg

  unfoldable pub get_snac_reqid : Storage → Result ℕ
  get_snac_reqid stg = get_value_item e 4 (flap_header_size + 2 * 3) stg

  unfoldable pub end_ptr : Storage → Result ℕ
  unfolding get_snac_size
  end_ptr stg = do n ← get_snac_size stg; ok (flap_header_size + n)

  -- The constructor of an iterator at `first`.
  unfoldable pub iterator_at : Storage → ℕ → Result TlvIterator
  iterator_at stg first = do
    last ← end_ptr stg
    if first == last then ok (record { begin = first; end = first }) else do
      n ← get_size e first stg
      if ltb last (first + n)
          then err snac_structure
          else ok (record { begin = first; end = first + n })

  unfoldable pub begin : Storage → Result TlvIterator
  begin stg = iterator_at stg (flap_header_size + snac_header_size)

  unfoldable pub end : Storage → Result TlvIterator
  end stg = do last ← end_ptr stg; ok (record { begin = last; end = last })

  -- ++it
  unfoldable pub next : Storage → TlvIterator → Result TlvIterator
  next stg it = do
    last ← end_ptr stg
    if it.end == last then ok (record { begin = it.end; end = it.end }) else do
      n ← get_size e it.end stg
      if ltb last (it.end + n)
          then err snac_iterate
          else ok (record { begin = it.end; end = it.end + n })

  -- for (it = ...; it != end(); ++it) ++num
  unfoldable pub count_from : ℕ → Storage → TlvIterator → ℕ → Result ℕ
  count_from zero stg it num = err out_of_fuel
  count_from (suc fuel) stg it num =
      let more : Result ℕ = (do it' ← next stg it; count_from fuel stg it' (num + 1)) in
      end stg >>= λ last. if it.begin == last.begin then ok num else more

  unfoldable pub calc_tlv_count : ℕ → Storage → Result ℕ
  calc_tlv_count fuel stg = do it ← begin stg; count_from fuel stg it 0

  -- The conditions of the constructor, from left to right.
  unfoldable pub bad_structure : Storage → Result Bool
  bad_structure [] = ok true
  bad_structure (mark ∷ rest) = if not (mark == flap_mark) then ok true else do
    channel ← get_channel (mark ∷ rest)
    if not (leb flap_channel_begin channel && ltb channel flap_channel_end) then ok true else do
      n ← get_snac_size (mark ∷ rest)
      ok (ltb (length (mark ∷ rest)) (n + flap_header_size))

  unfoldable pub flap_parser : ℕ → Storage → Result FlapParser
  flap_parser fuel stg = do
    bad ← bad_structure stg
    if bad
        then err flap_structure
        else do n ← calc_tlv_count fuel stg; ok (record { stg = stg; tlv_count = n })
