-- ===== src/Examples/Packets.antt =====
-- Packets of the log protocol on a little-endian host.
use proxy_channels.Base.{
  ℕ, ◌+◌, leb, ◌≤◌, ◌⊎◌, inl, inr, sym, ap, ◌∙◌, ◌<◌, ◌^◌, ◌≡◌, ◌≢◌, refl, [], ◌∷◌, ◌++◌, Bytes,
  replicate, drop, codes, false, arith, length, ok, err, out_of_fuel, ◌>>=◌, some,
}
use proxy_channels.Base.Int.{pos, negsuc}
use proxy_channels.Oscar.Endian.Swap.{little_endian_host, byte_swap}
use proxy_channels.Oscar.Endian.{object_value, object_bytes}
use proxy_channels.Oscar.Memory.{Storage, read}
use proxy_channels.Oscar.Tlv.{vector, get_value, get_size, get_data_size, get_value_item}
use proxy_channels.Oscar.Tlv.Encoding.{encode_tlv}
use proxy_channels.Oscar.Tlv.RoundTrip.{get_value-encode_tlv}
use proxy_channels.Oscar.Proto.{FlapChannel, TlvData, snac_stop}
use proxy_channels.Oscar.Tlv.{calc_size, get_array}
use proxy_channels.Oscar.Tlv.CArray.{calc_array_size, create_array, get_array-create_array}
use proxy_channels.Oscar.Snac.{accumulate}
use proxy_channels.Oscar.Snac.Layout.{accumulate-encode_tlvs}
use proxy_channels.Oscar.Flap.Layout.{encode_snac, length-encode_snac}
use proxy_channels.Oscar.Flap.Parser.{
  flap_parser, end_ptr, bad_structure, get_snac_size, get_channel, byte_at,
}
use proxy_channels.Oscar.Flap.Parser.Diverge.{
  Reached, first, behind, flap_parser_diverges, flap_parser_ends,
}
use proxy_channels.Oscar.Flap.RoundTrip.{packet, flap_parser-packet}
use proxy_channels.Utils.LogBuilder.{LogPackage, message_command}
use proxy_channels.Proxy.Actor.{oscar}
use proxy_channels.Proxy.OscarAdaptor.{do_log}
use proxy_channels.Proxy.OscarAdaptor.EndToEnd.{IsSendable, received, do_log-pack}
use proxy_channels.LogClient.{pack}

abbrev pub package_of_log : LogPackage
package_of_log = record {
  message = codes "ready";
  tag = codes "MAIN";
  timestamp = record { tv_sec = pos 1700000000; tv_nsec = pos 250000 };
  command = message_command;
  severity = 2;
  lchannel = negsuc 0;
}

pub package_of_log-IsSendable : IsSendable package_of_log
package_of_log-IsSendable = record {
  texts = omega arith;
  severity = omega arith;
  channel = omega arith;
  sec = omega arith;
  nsec = omega arith;
}

do_log-pack_example :
    ((pack little_endian_host false package_of_log 7).0 >>= do_log little_endian_host 9 0 oscar)
    ≡ ok (some (received message_command 0 package_of_log))
do_log-pack_example =
    do_log-pack little_endian_host false package_of_log package_of_log-IsSendable 7 9 0
      (omega arith)

abbrev stop_data : TlvData snac_stop.tlvs
stop_data = (3, (1700000000, (250000, tt)))

stop_small : length (encode_snac little_endian_host snac_stop 7 stop_data) < 2 ^ 16
unfolding accumulate calc_size
stop_small = omega (
  arith,
  length-encode_snac little_endian_host snac_stop 7 stop_data,
  accumulate-encode_tlvs little_endian_host 0 snac_stop.tlvs stop_data,
)

flap_parser-packet_example :
    flap_parser little_endian_host 4
      (packet little_endian_host FlapChannel.control 0 snac_stop 7 stop_data stop_small)
    ≡ ok (record {
      stg = packet little_endian_host FlapChannel.control 0 snac_stop 7 stop_data stop_small;
      tlv_count = 3;
    })
flap_parser-packet_example =
    flap_parser-packet little_endian_host FlapChannel.control 0 snac_stop 7 stop_data stop_small
      (omega arith) 4 (omega arith)

get_value-encode_tlv_example :
    get_value little_endian_host
      (vector 2)
      3
      ((1 ∷ 2 ∷ 3 ∷ []) ++ (encode_tlv little_endian_host 5 (vector 2) (258 ∷ 772 ∷ []) ++ 9 ∷ []))
    ≡ ok (258 ∷ 772 ∷ [])
get_value-encode_tlv_example =
    get_value-encode_tlv little_endian_host (1 ∷ 2 ∷ 3 ∷ []) (9 ∷ []) 5 (vector 2) (258 ∷ 772 ∷ [])
      _ 3 refl refl (omega arith)

-- A header, and a TLV that states the size 0xfffc.
abbrev endless : Storage
endless = 42 ∷ 1 ∷ 0 ∷ 0 ∷ 0 ∷ 14 ∷ 0 ∷ 1 ∷ 0 ∷ 1 ∷ 0 ∷ 0 ∷ 0 ∷ 0 ∷ 0 ∷ 0 ∷ 0 ∷ 1 ∷ 255 ∷ 252 ∷ []

endless_end : end_ptr little_endian_host endless ≡ ok 20
unfolding end_ptr get_snac_size get_value_item read byte_swap object_value object_bytes
    bad_structure get_channel byte_at get_data_size
endless_end = refl

endless_good : bad_structure little_endian_host endless ≡ ok false
unfolding end_ptr get_snac_size get_value_item read byte_swap object_value object_bytes
    bad_structure get_channel byte_at get_data_size
endless_good = refl

endless_size : get_data_size little_endian_host 16 endless ≡ ok 0xfffc
unfolding end_ptr get_snac_size get_value_item read byte_swap object_value object_bytes
    bad_structure get_channel byte_at get_data_size
endless_size = refl

flap_parser_diverges_example : flap_parser little_endian_host 1000 endless ≡ err out_of_fuel
flap_parser_diverges_example =
    flap_parser_diverges little_endian_host endless 20 endless_end endless_good (omega arith)
      endless_size 1000

-- A packet with one TLV of two bytes.
abbrev short_flap : Storage
short_flap =
    42 ∷ 1 ∷ 0 ∷ 0 ∷ 0 ∷ 16 ∷ 0 ∷ 1 ∷ 0 ∷ 0 ∷ 255 ∷ 255 ∷ 0 ∷ 0 ∷ 0 ∷ 0 ∷ 0 ∷ 1 ∷ 0 ∷ 2 ∷ 7 ∷ 9 ∷ []

short_flap_end : end_ptr little_endian_host short_flap ≡ ok 22
unfolding end_ptr get_snac_size get_value_item read byte_swap object_value object_bytes
    bad_structure get_channel byte_at get_data_size
short_flap_end = refl

ok_inj : (a n : ℕ) → ok a ≡ ok n → a ≡ n
ok_inj a n h = ground arith

first_size : get_size little_endian_host 16 short_flap ≡ ok 6
unfolding get_size get_data_size get_value_item read byte_swap object_value object_bytes
first_size = refl

first_data_size : get_data_size little_endian_host 16 short_flap ≡ ok 2
unfolding get_data_size get_value_item read byte_swap object_value object_bytes
first_data_size = refl

-- The loop comes to the TLV, and to no other position from which it can read one.
short_flap_Reached : {at : ℕ} → Reached little_endian_host short_flap at → (at ≡ 16) ⊎ (22 ≤ at)
short_flap_Reached first = inl refl
short_flap_Reached (behind {at} {n} r size) = elim (short_flap_Reached r) [
  | inl here ↦
      let six =
        ok_inj 6 n
          (sym first_size ∙ ap (λ a. get_size little_endian_host a short_flap) (sym here) ∙ size) in
      inr (omega (arith, here, six))
  | inr far ↦ inr (omega (arith, far))
]

nothing_behind : (at n : ℕ) → 22 ≤ at → get_data_size little_endian_host at short_flap ≡ ok n → ⊥
unfolding get_data_size read
nothing_behind at n far h =
    let over : leb (at + 2 + 2) 22 ≡ false = below at far in ground (arith, rw over at h)
  where
    below : (at : ℕ) → 22 ≤ at → leb (at + 2 + 2) 22 ≡ false
    below at far = ground arith

short_flap_sizes :
    (at n : ℕ)
    → Reached little_endian_host short_flap at
    → get_data_size little_endian_host at short_flap ≡ ok n
    → n < 0xfffc
short_flap_sizes at n r size = elim (short_flap_Reached r) [
  | inl here ↦
      let two = ok_inj 2 n (
        sym first_data_size
        ∙ ap (λ a. get_data_size little_endian_host a short_flap) (sym here)
        ∙ size) in
      omega (arith, two)
  | inr far ↦ absurd (nothing_behind at n far size)
]

flap_parser_ends_example : flap_parser little_endian_host 7 short_flap ≢ err out_of_fuel
flap_parser_ends_example =
    flap_parser_ends little_endian_host short_flap 22 short_flap_end short_flap_sizes 7
      (omega arith)

abbrev room : Bytes
room = replicate 9 0

get_array-create_array_example :
    (tlv : Bytes) × ((length tlv ≡ calc_array_size 2 2)
      × (create_array little_endian_host 3 2 (513 ∷ 7 ∷ 9 ∷ []) 2 1 (1 ∷ room)
          ≡ ok (1 ∷ (tlv ++ drop (calc_array_size 2 2) room)))
      × (get_array little_endian_host 2 1 (1 ∷ (tlv ++ drop (calc_array_size 2 2) room))
          ≡ ok (513 ∷ 7 ∷ [])))
unfolding calc_array_size
get_array-create_array_example =
    get_array-create_array little_endian_host (1 ∷ []) room 3 2 2 (513 ∷ 7 ∷ 9 ∷ []) (omega arith)
      (omega arith) (omega arith) (omega arith, (omega arith, tt)) (omega arith)
