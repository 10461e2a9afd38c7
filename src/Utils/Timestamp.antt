-- ===== src/Utils/Timestamp.antt =====
-- utils/timestamp.cpp. `tv_nsec` holds microseconds, as `GetTimestamp` leaves them. The fields,
-- `long` and int64_t have 64 bits; a result that they cannot hold wraps around.
pub mod Adjust
pub mod Text
use proxy_channels.Base.{ℕ, zero, suc, ◌*◌, ◌/◌, Bool, true, false, not, ◌&&◌, if◌then◌else◌}
use proxy_channels.Base.Int.{
  ℤ, pos, negsuc, sub_ℕ, ◌+ℤ◌, ltb_ℤ, eqb_ℤ, quot, rem, scale, to_signed, to_word,
}

pub record Timespec : Type 0 where
  pub tv_sec : ℤ
  pub tv_nsec : ℤ

abbrev pub one_second_in_microseconds : ℕ
one_second_in_microseconds = 1000000

-- What a signed type of 64 bits holds of a result.
unfoldable pub signed : ℤ → ℤ
signed z = to_signed 64 (to_word 64 z)

-- while (part < 0) { part += 1000000; --sec; }
unfoldable pub carry : ℕ → ℤ → ℤ → Timespec
unfolding signed
carry zero part sec = record { tv_sec = sec; tv_nsec = part }
carry (suc fuel) part sec =
    let more =
      carry fuel (signed (part +ℤ pos one_second_in_microseconds)) (signed (sec +ℤ negsuc 0)) in
    if ltb_ℤ part (pos 0) then more else record { tv_sec = sec; tv_nsec = part }

-- The remainder is above -1000000, so that one round is enough: see Adjust.
abbrev pub carry_fuel : ℕ
carry_fuel = 1

unfoldable pub timestamp_adjust : Timespec → ℤ → Timespec
unfolding signed
timestamp_adjust ts delta =
    let m = one_second_in_microseconds in
    let mcs = signed (signed (signed (scale (rem ts.tv_sec m) m) +ℤ ts.tv_nsec) +ℤ delta) in
    let sec = signed (scale (quot ts.tv_sec m) m) in
    if eqb_ℤ delta (pos 0) then ts else carry carry_fuel (rem mcs m) (signed (sec +ℤ quot mcs m))

-- operator<
unfoldable pub timespec_lt : Timespec → Timespec → Bool
timespec_lt l r =
    let status = ltb_ℤ l.tv_sec r.tv_sec in
    if not status && eqb_ℤ l.tv_sec r.tv_sec then ltb_ℤ l.tv_nsec r.tv_nsec else status

-- The end of `GetTimestamp`: the clock gives nanoseconds.
unfoldable pub get_timestamp : ℕ → ℕ → Timespec
get_timestamp sec nsec = record { tv_sec = pos sec; tv_nsec = pos (nsec / 1000) }
