-- ===== src/Utils/Timestamp/Text.antt =====
-- The printed time: ConvertTimestamp and GetTimestampStr of utils/timestamp.cpp. `localtime` is an
-- argument; of `struct tm` it gives the fields that are printed.
use proxy_channels.Base.{
  ℕ, suc, ◌+◌, ◌-◌, ◌^◌, ◌<◌, ◌≡◌, refl, ◌∷◌, ◌++◌, Bytes, length, take, drop, replicate,
}
use proxy_channels.Base.Int.{ℤ, pos, negsuc}
use proxy_channels.Base.Decimal.{padded, digits, read_decimal, padded-digits, read_decimal-digits}
use proxy_channels.Utils.Timestamp.{Timespec, timestamp_adjust}

pub record Tm : Type 0 where
  pub tm_hour : ℕ
  pub tm_min : ℕ
  pub tm_sec : ℕ

unfoldable pub convert_timestamp : (ℤ → Tm) → Timespec → ℤ → Tm × ℤ
convert_timestamp localtime tv delta =
    let moved = timestamp_adjust tv delta in (localtime moved.tv_sec, moved.tv_nsec)

-- `%06ld`: the sign takes one of the places.
unfoldable pub print_us : ℤ → Bytes
print_us (pos n) = padded 6 n
print_us (negsuc n) = 45 ∷ padded 5 (suc n)

-- "%02d:%02d:%02d.%06ld"
unfoldable pub print_time : Tm → ℤ → Bytes
unfolding print_us
print_time t us =
    padded 2 t.tm_hour
    ++ (58 ∷ (padded 2 t.tm_min ++ (58 ∷ (padded 2 t.tm_sec ++ (46 ∷ print_us us)))))

-- snprintf into the buffer: at most `size - 1` characters and a zero.
unfoldable pub snprintf : ℕ → Bytes → Bytes → Bytes
snprintf size text buffer =
    let shown = take (size - 1) text in shown ++ 0 ∷ drop (length shown + 1) buffer

unfoldable pub pop_back : Bytes → Bytes
pop_back s = take (length s - 1) s

unfoldable pub get_timestamp_str : Tm → ℤ → Bytes
unfolding print_time snprintf pop_back
get_timestamp_str t us = pop_back (snprintf 16 (print_time t us) (replicate 16 0))

unfoldable pub timestamp_str : (ℤ → Tm) → Timespec → Bytes
unfolding convert_timestamp get_timestamp_str
timestamp_str localtime tv =
    let converted = convert_timestamp localtime tv (pos 0) in
    get_timestamp_str converted.0 converted.1

-- What a reader makes of a printed time: the fields at their places.
unfoldable pub read_time : Bytes → Tm × ℕ
read_time s = (
  record {
    tm_hour = read_decimal (take 2 s);
    tm_min = read_decimal (take 2 (drop 3 s));
    tm_sec = read_decimal (take 2 (drop 6 s));
  },
  read_decimal (drop 9 s),
)

-- Two digits for each field, as for those that localtime gives.
pub record IsClock (t : Tm) : Type 0 where
  pub hour : t.tm_hour < 100
  pub min : t.tm_min < 100
  pub sec : t.tm_sec < 100

abbrev clock_text : Tm → ℕ → Bytes
clock_text t n =
    digits 2 t.tm_hour
    ++ (58 ∷ (digits 2 t.tm_min ++ (58 ∷ (digits 2 t.tm_sec ++ (46 ∷ digits 6 n)))))

module _ (t : Tm) (n : ℕ) (c : IsClock t) (h : n < 10 ^ 6) where
  print_time-clock_text : print_time t (pos n) ≡ clock_text t n
  unfolding print_time print_us
  print_time-clock_text =
      rw
        (
          padded-digits 2 t.tm_hour c.hour,
          padded-digits 2 t.tm_min c.min,
          padded-digits 2 t.tm_sec c.sec,
          padded-digits 6 n h,
        )
        refl

  get_timestamp_str-clock_text : get_timestamp_str t (pos n) ≡ clock_text t n
  unfolding get_timestamp_str snprintf pop_back digits
  get_timestamp_str-clock_text = rw print_time-clock_text refl

  read_time-clock_text : read_time (clock_text t n) ≡ (t, n)
  unfolding read_time digits
  read_time-clock_text =
      rw
        (
          read_decimal-digits 2 t.tm_hour c.hour,
          read_decimal-digits 2 t.tm_min c.min,
          read_decimal-digits 2 t.tm_sec c.sec,
          read_decimal-digits 6 n h,
        )
        refl

-- If localtime gives fields below 100, then the printed form of a time with fewer than 10^6
-- microseconds has 15 characters, and the time of day and the microseconds are read back from it.
pub read_time-timestamp_str :
    (localtime : ℤ → Tm) (tv : Timespec) (n : ℕ)
    → tv.tv_nsec ≡ pos n
    → n < 10 ^ 6
    → IsClock (localtime tv.tv_sec)
    → (length (timestamp_str localtime tv) ≡ 15)
      × (read_time (timestamp_str localtime tv) ≡ (localtime tv.tv_sec, n))
unfolding timestamp_str convert_timestamp timestamp_adjust digits
read_time-timestamp_str localtime tv n us h c =
    rw (us, get_timestamp_str-clock_text (localtime tv.tv_sec) n c h)
      (refl, read_time-clock_text (localtime tv.tv_sec) n c h)
