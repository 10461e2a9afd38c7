-- ===== src/Oscar/Flap/Cursor.antt =====
-- Iterators over a packet whose TLVs are known: what they point to, and how they move.
use proxy_channels.Base.{
  ℕ, zero, suc, ◌+◌, ◌^◌, ◌<◌, ◌≡◌, refl, sym, ap, ◌∙◌, List, [], ◌∷◌, ◌++◌, Bytes, arith, length,
  length-append, append-nil, append_assoc, ok, ltb, ◌==◌, eq→==, ne→==, true, false,
}
use proxy_channels.Oscar.Endian.{Endian}
use proxy_channels.Oscar.Memory.{Storage}
use proxy_channels.Oscar.Tlv.{data_bytes, get_size, get_value}
use proxy_channels.Oscar.Tlv.Encoding.{encode_tlv, length-encode_tlv}
use proxy_channels.Oscar.Tlv.RoundTrip.{Fits, get_size-encode_tlv, get_value-encode_tlv}
use proxy_channels.Oscar.Proto.{TlvTraits, TlvData, tlv_type_id}
use proxy_channels.Oscar.Snac.Layout.{encode_tlvs}
use proxy_channels.Oscar.Flap.Parser.{TlvIterator, end_ptr, iterator_at, end, next, count_from}

-- Every value fits in its field.
abbrev pub AllFit : (ts : List TlvTraits) → TlvData ts → Type 0
AllFit [] d = Unit {0}
AllFit (t ∷ ts) (x, d) = Fits t.kind x × AllFit ts d

-- The iterator at `at`, where the TLVs `d` stand.
abbrev pub iterator : (ts : List TlvTraits) → TlvData ts → ℕ → TlvIterator
iterator [] d at = record { begin = at; end = at }
iterator (t ∷ ts) (x, d) at = record { begin = at; end = at + (4 + data_bytes t.kind x) }

module _ (e : Endian) (stg : Storage) (last : end_ptr e stg ≡ ok (length stg)) where
  -- Behind the prefix, the storage holds the TLVs `d` and nothing else.
  pub record Cursor (p : Bytes) (ts : List TlvTraits) (d : TlvData ts) : Type 0 where
    pub split : stg ≡ p ++ encode_tlvs e ts d
    pub fits : AllFit ts d
    pub small : length (encode_tlvs e ts d) < 2 ^ 16

  pub Cursor-tail :
      {p : Bytes} (t : TlvTraits) (ts : List TlvTraits) {d : TlvData (t ∷ ts)}
      → Cursor p (t ∷ ts) d
      → Cursor (p ++ encode_tlv e (tlv_type_id t.tlv_type) t.kind d.0) ts d.1
  unfolding encode_tlvs
  Cursor-tail {p} t ts {d = (x, d)} c = record {
    split = c.split ∙ sym (append_assoc p _ (encode_tlvs e ts d));
    fits = c.fits.1;
    small = omega (
      arith,
      c.small,
      length-append {0} (encode_tlv e (tlv_type_id t.tlv_type) t.kind x) (encode_tlvs e ts d),
    );
  }

  at_end : (p : Bytes) (d : TlvData []) → Cursor p [] d → (length p == length stg) ≡ true
  unfolding encode_tlvs
  at_end p d c = eq→== _ _ (ap length (sym (c.split ∙ append-nil p)))

  module _ (p : Bytes) (t : TlvTraits) (ts : List TlvTraits) (x : TlvData (t ∷ ts))
      (c : Cursor p (t ∷ ts) x) where
    length_stg : length stg ≡ length p + (4 + data_bytes t.kind x.0) + length (encode_tlvs e ts x.1)
    unfolding encode_tlvs
    length_stg = omega (
      arith,
      ap length c.split,
      length-append {0} p (encode_tlvs e (t ∷ ts) x),
      length-append {0} (encode_tlv e (tlv_type_id t.tlv_type) t.kind x.0) (encode_tlvs e ts x.1),
      length-encode_tlv e (tlv_type_id t.tlv_type) t.kind x.0,
    )

    small_head : 4 + data_bytes t.kind x.0 < 2 ^ 16
    unfolding encode_tlvs
    small_head = omega (
      arith,
      c.small,
      length-append {0} (encode_tlv e (tlv_type_id t.tlv_type) t.kind x.0) (encode_tlvs e ts x.1),
      length-encode_tlv e (tlv_type_id t.tlv_type) t.kind x.0,
    )

    not_at_end : (length p == length stg) ≡ false
    not_at_end = ne→== _ _ (λ h. omega (arith, length_stg))

    size_here : get_size e (length p) stg ≡ ok (4 + data_bytes t.kind x.0)
    unfolding encode_tlvs
    size_here =
        get_size-encode_tlv e p (encode_tlvs e ts x.1) (tlv_type_id t.tlv_type) t.kind x.0 stg
          (length p) c.split refl c.fits.0 small_head

    inside : ltb (length stg) (length p + (4 + data_bytes t.kind x.0)) ≡ false
    inside = ground (arith, length_stg)

    -- The value under an iterator.
    pub get_value-Cursor : get_value e t.kind (length p) stg ≡ ok x.0
    unfolding encode_tlvs
    get_value-Cursor =
        get_value-encode_tlv e p (encode_tlvs e ts x.1) (tlv_type_id t.tlv_type) t.kind x.0 stg
          (length p) c.split refl c.fits.0

  pub iterator_at-Cursor :
      (p : Bytes) (ts : List TlvTraits) (d : TlvData ts)
      → Cursor p ts d
      → iterator_at e stg (length p) ≡ ok (iterator ts d (length p))
  unfolding iterator_at
  iterator_at-Cursor p [] d c = rw (last, at_end p d c)
  iterator_at-Cursor p (t ∷ ts) d c =
      rw (last, not_at_end p t ts d c, size_here p t ts d c, inside p t ts d c)

  -- The step onto a position with a cursor.
  next-onto :
      (p : Bytes) (from : ℕ) (ts : List TlvTraits) (d : TlvData ts)
      → Cursor p ts d
      → next e stg (record { begin = from; end = length p }) ≡ ok (iterator ts d (length p))
  unfolding next
  next-onto p from [] d c = rw (last, at_end p d c)
  next-onto p from (t ∷ ts) d c =
      rw (last, not_at_end p t ts d c, size_here p t ts d c, inside p t ts d c)

  pub next-Cursor :
      (p : Bytes) (t : TlvTraits) (ts : List TlvTraits) (d : TlvData (t ∷ ts))
      → Cursor p (t ∷ ts) d
      → next e stg (iterator (t ∷ ts) d (length p))
        ≡ ok (iterator ts d.1 (length (p ++ encode_tlv e (tlv_type_id t.tlv_type) t.kind d.0)))
  next-Cursor p t ts d c = rw moved (next-onto (p ++ tlv) (length p) ts d.1 (Cursor-tail t ts c))
    where
      tlv : Bytes
      tlv = encode_tlv e (tlv_type_id t.tlv_type) t.kind d.0

      moved : length p + (4 + data_bytes t.kind d.0) ≡ length (p ++ tlv)
      moved =
          omega (
            arith,
            length-append {0} p tlv,
            length-encode_tlv e (tlv_type_id t.tlv_type) t.kind d.0,
          )

  -- Counting from a cursor gives the number of TLVs behind it.
  pub count_from-Cursor :
      (p : Bytes) (ts : List TlvTraits) (d : TlvData ts) (fuel num : ℕ)
      → Cursor p ts d
      → length ts < fuel
      → count_from e fuel stg (iterator ts d (length p)) num ≡ ok (num + length ts)
  unfolding count_from end
  count_from-Cursor p ts d zero num c h = absurd (omega arith)
  count_from-Cursor p [] d (suc fuel) num c h = rw (last, at_end p d c) (ap ok (omega arith))
  count_from-Cursor p (t ∷ ts) d (suc fuel) num c h =
      rw (last, not_at_end p t ts d c, next-Cursor p t ts d c)
        (count_from-Cursor (p ++ encode_tlv e (tlv_type_id t.tlv_type) t.kind d.0) ts d.1 fuel
            (num + 1) (Cursor-tail t ts c) (omega arith)
          ∙ ap ok (omega arith))
