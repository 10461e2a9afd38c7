-- ===== src/Oscar/Flap.antt =====
-- oscar/flap_builder.h: `make_flap_package`, which puts a SNAC into a FLAP packet.
pub mod Parser
pub mod Layout
pub mod Cursor
pub mod RoundTrip
use proxy_channels.Base.{ℕ, ◌+◌, ◌*◌, Bool, [], ◌∷◌, Result, ok, ◌>>=◌, replicate}
use proxy_channels.Oscar.Endian.{Endian}
use proxy_channels.Oscar.Memory.{Storage, write}
use proxy_channels.Oscar.Tlv.{stored}
use proxy_channels.Oscar.Proto.{FlapChannel, flap_channel_id, TlvData, SnacTraits}
use proxy_channels.Oscar.Snac.{flap_header_size, flap_mark, generate_request_id, snac_add_data}

-- The constructor of `flap_base`.
abbrev pub empty_flap : Storage
empty_flap = replicate flap_header_size 0

abbrev pub offset_snac_size : ℕ
offset_snac_size = 1 * 2 + 2

abbrev pub default_flags : ℕ
default_flags = 0xffff

module _ (e : Endian) where
  -- The four stores that follow the SNAC.
  unfoldable pub store_flap_header : FlapChannel → ℕ → ℕ → Storage → Result Storage
  store_flap_header channel sequence_number size stg = do
    stg1 ← write 0 (flap_mark ∷ []) stg
    stg2 ← write 1 (flap_channel_id channel ∷ []) stg1
    stg3 ← write 2 (stored e 2 sequence_number) stg2
    write offset_snac_size (stored e 2 size) stg3

  unfoldable pub add_data :
      FlapChannel → ℕ → (tr : SnacTraits) → ℕ → TlvData tr.tlvs → Storage → Result Storage
  unfolding snac_add_data store_flap_header
  add_data channel sequence_number tr request_id d stg = do
    (size, stg') ← snac_add_data e tr default_flags request_id d stg
    store_flap_header channel sequence_number size stg'

  -- The counter of the request ids, and whether the build is a debug build, are arguments; the new
  -- counter comes back also beside an exception.
  unfoldable pub make_flap_package :
      Bool → FlapChannel → (tr : SnacTraits) → TlvData tr.tlvs → ℕ → Result Storage × ℕ
  unfolding generate_request_id add_data
  make_flap_package debug channel tr d num =
      let (request_id, num') = generate_request_id debug num in
      (add_data channel 0 tr request_id d empty_flap, num')
