-- ===== src/Utils/Timestamp/Adjust.antt =====
-- `TimestampAdjust` moves a time by the given number of microseconds.
use mathlib.Core.Path.{subst}
use proxy_channels.Base.{◌<◌, ◌≡◌, refl, sym, ap, ◌∙◌, true, false, arith, Bool-cases, inl, inr}
use proxy_channels.Base.Int.{
  ℤ, pos, negsuc, ◌+ℤ◌, quot, rem, scale, IsBelow, to_signed-IsBelow, +ℤ_bounds, scale_parts,
  quot_parts, pos_part, neg_part, ltb_ℤ, eqb_ℤ, eq_of_parts, eqb_ℤ-parts, int_laws, +ℤ_parts,
  rem_parts,
}
use proxy_channels.Utils.Timestamp.{Timespec, signed, carry, timestamp_adjust}

-- The microseconds that a time stands for.
unfoldable pub micros : Timespec → ℤ
micros ts = scale ts.tv_sec 1000000 +ℤ ts.tv_nsec

-- The microseconds are those of one second.
pub record IsNormal (ts : Timespec) : Type 0 where
  pub not_negative : neg_part ts.tv_nsec ≡ 0
  pub below_second : pos_part ts.tv_nsec < 1000000

signed-IsBelow : (z : ℤ) → IsBelow 63 z → signed z ≡ z
unfolding signed
signed-IsBelow z h = to_signed-IsBelow z h

module _ (part sec : ℤ) (short : IsBelow 62 sec) (low : pos_part part < 1000000)
    (high : neg_part part < 1000000) where
  next_part : signed (part +ℤ pos 1000000) ≡ part +ℤ pos 1000000
  next_part = signed-IsBelow _ (
    omega (arith, low, (+ℤ_bounds part (pos 1000000)).0),
    omega (arith, high, (+ℤ_bounds part (pos 1000000)).1),
  )

  next_sec : signed (sec +ℤ negsuc 0) ≡ sec +ℤ negsuc 0
  next_sec = signed-IsBelow _ (
    omega (arith, short.0, (+ℤ_bounds sec (negsuc 0)).0),
    omega (arith, short.1, (+ℤ_bounds sec (negsuc 0)).1),
  )

  micros-carry : micros (carry 1 part sec) ≡ scale sec 1000000 +ℤ part
  unfolding micros carry
  micros-carry = elim (Bool-cases (ltb_ℤ part (pos 0))) [
    | inl below ↦ rw (below, next_part, next_sec) (eq_of_parts _ _ (omega int_laws))
    | inr above ↦ rw above
  ]

  carry-IsNormal : IsNormal (carry 1 part sec)
  unfolding carry
  carry-IsNormal = elim (Bool-cases (ltb_ℤ part (pos 0))) [
    | inl below ↦
        rw (below, next_part, next_sec) (ground (arith, +ℤ_parts part (pos 1000000), low, high))
    | inr above ↦ rw above (ground arith)
  ]

-- The seconds of `sec` that are a whole number of 1000000, and the microseconds of the rest.
module _ (sec us delta : ℤ) where
  abbrev pub adjusted : Timespec
  adjusted = timestamp_adjust (record { tv_sec = sec; tv_nsec = us }) delta

  abbrev rest : ℤ
  rest = scale (rem sec 1000000) 1000000

  abbrev mcs : ℤ
  mcs = rest +ℤ us +ℤ delta

  abbrev whole : ℤ
  whole = scale (quot sec 1000000) 1000000

  module _ (short : IsBelow 61 sec) (few : IsBelow 61 us) (near : IsBelow 61 delta) where
    rest-IsBelow : IsBelow 41 rest
    rest-IsBelow = (
      omega (arith, (scale_parts (rem sec 1000000) 1000000).0, (rem_parts sec 1000000).0),
      omega (arith, (scale_parts (rem sec 1000000) 1000000).1, (rem_parts sec 1000000).1),
    )

    sum-IsBelow : IsBelow 62 (rest +ℤ us)
    sum-IsBelow = (
      omega (arith, rest-IsBelow.0, few.0, (+ℤ_bounds rest us).0),
      omega (arith, rest-IsBelow.1, few.1, (+ℤ_bounds rest us).1),
    )

    mcs-IsBelow : IsBelow 63 mcs
    mcs-IsBelow = (
      omega (arith, sum-IsBelow.0, near.0, (+ℤ_bounds (rest +ℤ us) delta).0),
      omega (arith, sum-IsBelow.1, near.1, (+ℤ_bounds (rest +ℤ us) delta).1),
    )

    whole-IsBelow : IsBelow 61 whole
    whole-IsBelow = (
      omega
          (arith, short.0, (scale_parts (quot sec 1000000) 1000000).0, (quot_parts sec 1000000).0),
      omega
          (arith, short.1, (scale_parts (quot sec 1000000) 1000000).1, (quot_parts sec 1000000).1),
    )

    seconds-IsBelow : IsBelow 62 (whole +ℤ quot mcs 1000000)
    seconds-IsBelow = (
      omega (
        arith,
        whole-IsBelow.0,
        mcs-IsBelow.0,
        (quot_parts mcs 1000000).0,
        (+ℤ_bounds whole (quot mcs 1000000)).0,
      ),
      omega (
        arith,
        whole-IsBelow.1,
        mcs-IsBelow.1,
        (quot_parts mcs 1000000).1,
        (+ℤ_bounds whole (quot mcs 1000000)).1,
      ),
    )

    stays : eqb_ℤ delta (pos 0) ≡ true → adjusted ≡ record { tv_sec = sec; tv_nsec = us }
    unfolding timestamp_adjust
    stays none = rw none refl

    -- No sum wraps around.
    timestamp_adjust-carry :
        eqb_ℤ delta (pos 0) ≡ false
        → adjusted ≡ carry 1 (rem mcs 1000000) (whole +ℤ quot mcs 1000000)
    unfolding timestamp_adjust
    timestamp_adjust-carry some =
        rw
          (
            some,
            signed-IsBelow rest (omega (arith, rest-IsBelow.0), omega (arith, rest-IsBelow.1)),
            signed-IsBelow (rest +ℤ us)
                (omega (arith, sum-IsBelow.0), omega (arith, sum-IsBelow.1)),
            signed-IsBelow mcs mcs-IsBelow,
            signed-IsBelow whole (omega (arith, whole-IsBelow.0), omega (arith, whole-IsBelow.1)),
            signed-IsBelow (whole +ℤ quot mcs 1000000)
                (omega (arith, seconds-IsBelow.0), omega (arith, seconds-IsBelow.1)),
          )
          refl

    -- Let the seconds, the microseconds and the shift be below 2^61 in size. Then no 64-bit sum wraps
    -- around, and a time moves by exactly the given number of microseconds, forwards or backwards.
    pub micros-timestamp_adjust : micros adjusted ≡ scale sec 1000000 +ℤ us +ℤ delta
    micros-timestamp_adjust = elim (Bool-cases (eqb_ℤ delta (pos 0))) [
      | inl none ↦
          rw (stays none)
            (eq_of_parts _ _ (unfold micros in omega (int_laws, eqb_ℤ-parts delta (pos 0) none)))
      | inr some ↦
          ap micros (timestamp_adjust-carry some)
          ∙ micros-carry (rem mcs 1000000) (whole +ℤ quot mcs 1000000) seconds-IsBelow
              (omega (arith, (rem_parts mcs 1000000).0)) (omega (arith, (rem_parts mcs 1000000).1))
          ∙ eq_of_parts _ _ (omega int_laws)
    ]

    -- A fraction of a second in its range is still so after the move.
    pub timestamp_adjust-IsNormal :
        IsNormal (record { tv_sec = sec; tv_nsec = us }) → IsNormal adjusted
    timestamp_adjust-IsNormal h = elim (Bool-cases (eqb_ℤ delta (pos 0))) [
      | inl none ↦ rw (stays none) h
      | inr some ↦ subst IsNormal (sym (timestamp_adjust-carry some)) (
          carry-IsNormal (rem mcs 1000000) (whole +ℤ quot mcs 1000000) seconds-IsBelow
            (omega (arith, (rem_parts mcs 1000000).0)) (omega (arith, (rem_parts mcs 1000000).1)))
    ]
