-- ===== src/Base/Decimal.antt =====
-- Decimal numbers as std::to_string and snprintf print them, and how they are read back.
use native.Mathlib.Nat.{pow-suc}
use Prim.Native.Nat.{ℕ, zero, suc, ◌+◌, ◌-◌, ◌*◌, ◌/◌, ◌%◌, ◌^◌, ◌<◌}
use mathlib.Core.Path.{◌≡◌, refl, ◌∙◌}
use mathlib.Core.List.{[], ◌∷◌, ◌++◌}
use native.Mathlib.Omega.{arith}
use mathlib.Core.Logic.{inl, inr}
use proxy_channels.Base.Tests.{Bytes, Bool-cases, ltb, if◌then◌else◌}
use proxy_channels.Base.Lists.{length, length-append}

-- The last `w` digits.
unfoldable pub digits : ℕ → ℕ → Bytes
digits zero n = []
digits (suc w) n = digits w (n / 10) ++ (48 + n % 10) ∷ []

-- The number of digits, up to the fuel.
unfoldable pub width : ℕ → ℕ → ℕ
width zero n = 1
width (suc fuel) n = let more = width fuel (n / 10) in if ltb n 10 then 1 else suc more

-- std::to_string of an unsigned number of at most 64 bits, which has at most 20 digits
unfoldable pub to_string : ℕ → Bytes
unfolding width digits
to_string n = digits (width 19 n) n

-- `%0wd`
unfoldable pub padded : ℕ → ℕ → Bytes
unfolding digits to_string
padded w n = if ltb n (10 ^ w) then digits w n else to_string n

unfoldable pub read_on : ℕ → Bytes → ℕ
read_on acc [] = acc
read_on acc (c ∷ s) = read_on (acc * 10 + (c - 48)) s

abbrev pub read_decimal : Bytes → ℕ
read_decimal s = read_on 0 s

read_on-append :
    (acc : ℕ) (s : Bytes) (c : ℕ) → read_on acc (s ++ c ∷ []) ≡ read_on acc s * 10 + (c - 48)
unfolding read_on
read_on-append acc [] c = refl
read_on-append acc (d ∷ s) c = read_on-append (acc * 10 + (d - 48)) s c

pub read_decimal-digits : (w n : ℕ) → n < 10 ^ w → read_decimal (digits w n) ≡ n
unfolding read_on digits
read_decimal-digits zero n h = omega arith
read_decimal-digits (suc w) n h =
    read_on-append 0 (digits w (n / 10)) (48 + n % 10)
    ∙ omega (arith, read_decimal-digits w (n / 10) (omega (arith, pow-suc 10 w)))

pub length-digits : (w n : ℕ) → length (digits w n) ≡ w
unfolding digits
length-digits zero n = refl
length-digits (suc w) n =
    omega
      (arith, length-append {0} (digits w (n / 10)) ((48 + n % 10) ∷ []), length-digits w (n / 10))

pub padded-digits : (w n : ℕ) → n < 10 ^ w → padded w n ≡ digits w n
unfolding padded
padded-digits w n h = ground arith

n-lt-width : (fuel n : ℕ) → n < 10 ^ suc fuel → n < 10 ^ width fuel n
unfolding width
n-lt-width zero n h = h
n-lt-width (suc fuel) n h = elim (Bool-cases (ltb n 10)) [
  | inl few ↦ rw few (ground arith)
  | inr many ↦ rw many (
      omega (
        arith,
        n-lt-width fuel (n / 10) (omega (arith, pow-suc 10 (suc fuel))),
        pow-suc 10 (width fuel (n / 10)),
      ))
]

-- A number below 10^20 is read back from its decimal form.
pub read_decimal-to_string : (n : ℕ) → n < 10 ^ 20 → read_decimal (to_string n) ≡ n
unfolding to_string
read_decimal-to_string n h = read_decimal-digits (width 19 n) n (n-lt-width 19 n h)
