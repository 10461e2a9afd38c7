-- ===== src/Oscar/Flap/Parser/Diverge.antt =====
-- When the loop of `calc_tlv_count` ends. The size of a TLV is cut to 16 bits, so a data size of
-- 0xfffc gives a step of zero bytes.
use proxy_channels.Base.{
  ℕ, zero, suc, ◌+◌, ◌%◌, ◌^◌, ◌<◌, ◌≤◌, ◌≡◌, ◌≢◌, refl, ◌∙◌, ◌⊎◌, arith, Result, ok, err, Error,
  out_of_fuel, snac_iterate, snac_structure, ◌>>=◌, ltb, ◌==◌, false, true, if◌then◌else◌, ne→==,
  Bool-cases, inl, inr, leb, length, take, drop, out_of_bounds, Result-cases, from_bind, [], ◌∷◌,
}
use proxy_channels.Oscar.Endian.{Endian, object_value}
use proxy_channels.Oscar.Memory.{Storage, read}
use proxy_channels.Oscar.Tlv.{get_data_size, get_size, get_value_item}
use proxy_channels.Oscar.Flap.Parser.{
  TlvIterator, end_ptr, iterator_at, begin, end, next, count_from, calc_tlv_count, byte_at,
  get_channel, get_snac_size, bad_structure, flap_parser,
}

get_data_size-cases :
    (e : Endian) (at : ℕ) (stg : Storage)
    → ((n : ℕ) × (get_data_size e at stg ≡ ok n)) ⊎ (get_data_size e at stg ≡ err out_of_bounds)
unfolding get_data_size read
get_data_size-cases e at stg = elim (Bool-cases (leb (at + 2 + 2) (length stg))) [
  | inl fits ↦ inl (e.big_to_native 2 (object_value (take 2 (drop (at + 2) stg))), rw fits)
  | inr over ↦ inr (rw over)
]

bad_structure-ne-out_of_fuel : (e : Endian) (stg : Storage) → bad_structure e stg ≢ err out_of_fuel
unfolding bad_structure get_channel byte_at get_snac_size get_value_item read
bad_structure-ne-out_of_fuel e [] = ground arith
bad_structure-ne-out_of_fuel e (mark ∷ []) = ground arith
bad_structure-ne-out_of_fuel e (mark ∷ (channel ∷ rest)) = ground arith

-- The positions that the loop over the TLVs may come to: that of the first one, and those behind a TLV.
pub data Reached (e : Endian) (stg : Storage) : ℕ → Type 0 where
  first : Reached e stg 16
  behind : {at n : ℕ} → Reached e stg at → get_size e at stg ≡ ok n → Reached e stg (at + n)

module _ (e : Endian) (stg : Storage) (last : ℕ) (last_is : end_ptr e stg ≡ ok last) where
  module _ (at : ℕ) (inside : at < last) (wraps : get_data_size e at stg ≡ ok 0xfffc) where
    stuck : TlvIterator
    stuck = record { begin = at; end = at }

    no_step : get_size e at stg ≡ ok 0
    unfolding get_size
    no_step = rw wraps

    not_last : (at == last) ≡ false
    not_last = ne→== at last (λ h. omega arith)

    not_over : ltb last (at + 0) ≡ false
    not_over = ground arith

    at_zero : at + 0 ≡ at
    at_zero = omega arith

    next-stuck : next e stg stuck ≡ ok stuck
    unfolding next stuck
    next-stuck = rw (last_is, not_last, no_step, not_over, at_zero)

    count_from-stuck : (fuel num : ℕ) → count_from e fuel stg stuck num ≡ err out_of_fuel
    unfolding count_from end stuck
    count_from-stuck zero num = refl
    count_from-stuck (suc fuel) num =
        rw (last_is, not_last, next-stuck) (count_from-stuck fuel (num + 1))

    iterator_at-stuck : iterator_at e stg at ≡ ok stuck
    unfolding iterator_at stuck
    iterator_at-stuck = rw (last_is, not_last, no_step, not_over, at_zero)

  -- A packet with a good header, whose first TLV begins before the end and states the data size
  -- 0xfffc, is not parsed with any fuel.
  pub flap_parser_diverges :
      bad_structure e stg ≡ ok false
      → 16 < last
      → get_data_size e 16 stg ≡ ok 0xfffc
      → (fuel : ℕ) → flap_parser e fuel stg ≡ err out_of_fuel
  unfolding flap_parser calc_tlv_count begin
  flap_parser_diverges good inside wraps fuel =
      rw (good, iterator_at-stuck 16 inside wraps, count_from-stuck 16 inside wraps fuel 0)

  module _
      (no_wrap : (at n : ℕ) → Reached e stg at → get_data_size e at stg ≡ ok n → n < 0xfffc) where
    -- Where a step leads: a position not behind the end, or an exception.
    abbrev Advances : ℕ → Result TlvIterator → Type 0
    Advances from r =
        ((r ≡ ok (record { begin = from; end = from })) × (from ≡ last))
        ⊎ ((to : ℕ) × (r ≡ ok (record { begin = from; end = to }))
            × (from < to)
            × (to ≤ last)
            × Reached e stg to)
        ⊎ ((x : Error) × (r ≡ err x) × (x ≢ out_of_fuel))

    advance :
        (from : ℕ) (x : Error)
        → Reached e stg from
        → x ≢ out_of_fuel
        → Advances from (
            if from == last
            then ok (record { begin = from; end = from })
            else get_size e from stg >>= λ n.
                if ltb last (from + n) then err x else ok (record { begin = from; end = from + n }))
    unfolding get_size
    advance from x reached other = elim (Bool-cases (from == last)) [
      | inl here ↦ inl (rw here, ground arith)
      | inr ahead ↦ elim (get_data_size-cases e from stg) [
        | inl (n, size) ↦ elim (Bool-cases (ltb last (from + (4 + n)))) [
          | inl over ↦ inr (inr (x, rw (ahead, size, whole n size, over), other))
          | inr fits ↦ inr (
              inl (
                from + (4 + n),
                rw (ahead, size, whole n size, fits),
                omega arith,
                ground arith,
                next_one n size,
              ))
        ]
        | inr bad ↦ inr (inr (out_of_bounds, rw (ahead, bad), λ z. cc))
      ]
    ]
      where
        whole : (n : ℕ) → get_data_size e from stg ≡ ok n → (4 + n) % 2 ^ 16 ≡ 4 + n
        whole n size = omega (arith, no_wrap from n reached size)

        next_one : (n : ℕ) → get_data_size e from stg ≡ ok n → Reached e stg (from + (4 + n))
        next_one n size = behind reached (rw (size, whole n size) refl)

    count_from_ends :
        (fuel num from to : ℕ)
        → Reached e stg to
        → ((from < to) × (to ≤ last)) ⊎ ((from ≡ last) × (to ≡ last))
        → last < fuel + from
        → count_from e fuel stg (record { begin = from; end = to }) num ≢ err out_of_fuel
    unfolding count_from end next
    count_from_ends zero num from to p h m = absurd (omega arith)
    count_from_ends (suc fuel) num from to p h m = elim (Bool-cases (from == last)) [
      | inl done ↦ rw (last_is, done) (λ z. cc)
      | inr more ↦
          rw (last_is, more)
            (elim (advance to snac_iterate p (λ z. cc)) [
              | inl (r, at_last) ↦
                  rw r
                    (count_from_ends fuel (num + 1) to to p (inr (at_last, at_last)) (ground arith))
              | inr (inl (to', r, grows, fits, p')) ↦
                  rw r (count_from_ends fuel (num + 1) to to' p' (inl (grows, fits)) (ground arith))
              | inr (inr (x, r, other)) ↦ rw r (λ z. other (ground arith))
            ])
    ]

    -- If no position that the loop over the TLVs may come to, the first one or one behind a TLV, states
    -- a data size from 0xfffc on, then the parser does not run out of fuel above last - 16, that is, it
    -- ends.
    pub flap_parser_ends : (fuel : ℕ) → last < fuel + 16 → flap_parser e fuel stg ≢ err out_of_fuel
    unfolding flap_parser calc_tlv_count begin iterator_at
    flap_parser_ends fuel h = elim (Result-cases (bad_structure e stg)) [
      | inl (true, bad) ↦ rw bad (λ z. cc)
      | inl (false, good) ↦ rw good (λ z. count_ends (from_bind _ _ z))
      | inr (x, r) ↦ rw r (λ z. bad_structure-ne-out_of_fuel e stg (r ∙ ground arith))
    ]
      where
        count_ends : calc_tlv_count e fuel stg ≢ err out_of_fuel
        count_ends = rw last_is (elim (advance 16 snac_structure first (λ z. cc)) [
          | inl (r, at_last) ↦ rw r (count_from_ends fuel 0 16 16 first (inr (at_last, at_last)) h)
          | inr (inl (to, r, grows, fits, p)) ↦
              rw r (count_from_ends fuel 0 16 to p (inl (grows, fits)) h)
          | inr (inr (x, r, other)) ↦ rw r (λ z. other (ground arith))
        ])
