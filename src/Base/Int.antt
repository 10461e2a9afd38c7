-- ===== src/Base/Int.antt =====
-- Signed integers over the native numbers, under the library's names, and two's complement.
use Prim.Native.Nat.{ℕ, suc, ◌+◌, ◌-◌, ◌*◌, ◌/◌, ◌%◌, ◌^◌, ◌<◌, ◌≤◌}
use mathlib.Core.Path.{◌≡◌, refl}
use mathlib.Core.Bool.{Bool, true}
use native.Mathlib.Omega.{arith}
use proxy_channels.Base.Tests.{ltb, leb, ◌==◌, if◌then◌else◌}

-- `negsuc n` is -(n + 1).
pub data ℤ : Type 0 where
  pos : ℕ → ℤ
  negsuc : ℕ → ℤ

abbrev pub pos_part : ℤ → ℕ
pos_part (pos n) = n
pos_part (negsuc n) = 0

abbrev pub neg_part : ℤ → ℕ
neg_part (pos n) = 0
neg_part (negsuc n) = suc n

-- a - b, as an integer.
abbrev pub sub_ℕ : ℕ → ℕ → ℤ
sub_ℕ a b = if leb b a then pos (a - b) else negsuc (b - a - 1)

infixl 65 ◌+ℤ◌
unfoldable pub ◌+ℤ◌ : ℤ → ℤ → ℤ
a +ℤ b = sub_ℕ (pos_part a + pos_part b) (neg_part a + neg_part b)

abbrev pub ltb_ℤ : ℤ → ℤ → Bool
ltb_ℤ a b = ltb (pos_part a + neg_part b) (pos_part b + neg_part a)

abbrev pub eqb_ℤ : ℤ → ℤ → Bool
eqb_ℤ a b = pos_part a + neg_part b == pos_part b + neg_part a

-- The product with a number.
unfoldable pub scale : ℤ → ℕ → ℤ
scale (pos n) k = pos (n * k)
scale (negsuc n) k = sub_ℕ 0 (suc n * k)

-- Division and remainder of C++, which truncate towards zero, by a positive number.
unfoldable pub quot : ℤ → ℕ → ℤ
quot (pos n) d = pos (n / d)
quot (negsuc n) d = sub_ℕ 0 (suc n / d)

unfoldable pub rem : ℤ → ℕ → ℤ
rem (pos n) d = pos (n % d)
rem (negsuc n) d = sub_ℕ 0 (suc n % d)

-- The value of a signed `w`-bit integer with bit pattern `p`, and the pattern of an integer.
unfoldable pub to_signed : ℕ → ℕ → ℤ
to_signed w p = if ltb p (2 ^ (w - 1)) then pos p else negsuc (2 ^ w - 1 - p)

unfoldable pub to_word : ℕ → ℤ → ℕ
to_word w (pos n) = n % 2 ^ w
to_word w (negsuc n) = 2 ^ w - 1 - n % 2 ^ w

-- The integers that a signed `w`-bit integer holds.
abbrev pub InRange : ℕ → ℤ → Type 0
InRange w (pos n) = n < 2 ^ (w - 1)
InRange w (negsuc n) = n < 2 ^ (w - 1)

pub to_signed-to_word8 : (z : ℤ) → InRange 8 z → to_signed 8 (to_word 8 z) ≡ z
unfolding to_signed to_word
to_signed-to_word8 (pos n) h = ground arith
to_signed-to_word8 (negsuc n) h = ground arith

pub to_signed-to_word64 : (z : ℤ) → InRange 64 z → to_signed 64 (to_word 64 z) ≡ z
unfolding to_signed to_word
to_signed-to_word64 (pos n) h = ground arith
to_signed-to_word64 (negsuc n) h = ground arith

-- The numbers whose size is below 2 ^ w.
abbrev pub IsBelow : ℕ → ℤ → Type 0
IsBelow w z = (pos_part z < 2 ^ w) × (neg_part z < 2 ^ w)

pub to_signed-IsBelow : (z : ℤ) → IsBelow 63 z → to_signed 64 (to_word 64 z) ≡ z
to_signed-IsBelow (pos n) h = to_signed-to_word64 (pos n) h.0
to_signed-IsBelow (negsuc n) h = to_signed-to_word64 (negsuc n) (omega (arith, h.1))

pub to_word8-lt : (z : ℤ) → to_word 8 z < 2 ^ 8
unfolding to_word
to_word8-lt (pos n) = omega arith
to_word8-lt (negsuc n) = omega arith

pub to_word64-lt : (z : ℤ) → to_word 64 z < 2 ^ 64
unfolding to_word
to_word64-lt (pos n) = omega arith
to_word64-lt (negsuc n) = omega arith

-- One lemma for each operation lets `omega` work with the operations shut.
pub +ℤ_parts :
    (a b : ℤ)
    → pos_part (a +ℤ b) + neg_part a + neg_part b ≡ neg_part (a +ℤ b) + pos_part a + pos_part b
unfolding ◌+ℤ◌
+ℤ_parts a b = ground arith

pub +ℤ_bounds :
    (a b : ℤ)
    → (pos_part (a +ℤ b) ≤ pos_part a + pos_part b) × (neg_part (a +ℤ b) ≤ neg_part a + neg_part b)
unfolding ◌+ℤ◌
+ℤ_bounds a b = (ground arith, ground arith)

pub scale_parts :
    (a : ℤ) (k : ℕ)
    → (pos_part (scale a k) ≡ pos_part a * k) × (neg_part (scale a k) ≡ neg_part a * k)
unfolding scale
scale_parts (pos n) k = (refl, omega arith)
scale_parts (negsuc n) k = (ground arith, ground arith)

pub quot_parts :
    (a : ℤ) (k : ℕ)
    → (pos_part (quot a k) ≡ pos_part a / k) × (neg_part (quot a k) ≡ neg_part a / k)
unfolding quot
quot_parts (pos n) k = (refl, omega arith)
quot_parts (negsuc n) k = (ground arith, ground arith)

pub rem_parts :
    (a : ℤ) (k : ℕ) → (pos_part (rem a k) ≡ pos_part a % k) × (neg_part (rem a k) ≡ neg_part a % k)
unfolding rem
rem_parts (pos n) k = (refl, omega arith)
rem_parts (negsuc n) k = (ground arith, ground arith)

pub eq_of_parts : (a b : ℤ) → pos_part a + neg_part b ≡ pos_part b + neg_part a → a ≡ b
eq_of_parts a b h = ground arith

pub +ℤ_assoc : (a b c : ℤ) → a +ℤ b +ℤ c ≡ a +ℤ (b +ℤ c)
unfolding ◌+ℤ◌
+ℤ_assoc a b c = ground arith

pub ruleset int_laws = (arith, +ℤ_parts, scale_parts, quot_parts, rem_parts)

pub eqb_ℤ-parts : (a b : ℤ) → eqb_ℤ a b ≡ true → pos_part a + neg_part b ≡ pos_part b + neg_part a
eqb_ℤ-parts a b h = ground arith
