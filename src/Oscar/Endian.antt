-- ===== src/Oscar/Endian.antt =====
-- `boost::endian::native_to_big` and `big_to_native`, which the code of oscar/tlv.h calls, and the
-- bytes of an unsigned object of `w` bytes, as `memcpy` sees them on the little-endian targets of
-- the build scripts.
pub mod Swap
use proxy_channels.Base.{
  ℕ, zero, suc, ◌+◌, ◌*◌, ◌/◌, ◌%◌, ◌^◌, ◌<◌, ◌≡◌, refl, [], ◌∷◌, arith, Bytes, length, ap,
}
use native.Mathlib.Nat.{pow-suc}

-- The documented behaviour of the two conversions: they keep the width and undo each other.
pub record Endian : Type 0 where
  pub native_to_big : ℕ → ℕ → ℕ
  pub big_to_native : ℕ → ℕ → ℕ
  pub native_to_big-lt : (w v : ℕ) → v < 256 ^ w → native_to_big w v < 256 ^ w
  pub big_to_native-native_to_big :
      (w v : ℕ) → v < 256 ^ w → big_to_native w (native_to_big w v) ≡ v

unfoldable pub object_bytes : ℕ → ℕ → Bytes
object_bytes zero v = []
object_bytes (suc w) v = v % 256 ∷ object_bytes w (v / 256)

unfoldable pub object_value : Bytes → ℕ
object_value [] = 0
object_value (b ∷ bs) = b + 256 * object_value bs

pub length-object_bytes : (w v : ℕ) → length (object_bytes w v) ≡ w
unfolding object_bytes
length-object_bytes zero v = refl
length-object_bytes (suc w) v = ap suc (length-object_bytes w (v / 256))

-- Reading an object back from its bytes.
pub object_value-object_bytes : (w v : ℕ) → v < 256 ^ w → object_value (object_bytes w v) ≡ v
unfolding object_bytes object_value
object_value-object_bytes zero v h = omega arith
object_value-object_bytes (suc w) v h =
    omega (arith, object_value-object_bytes w (v / 256) (omega (arith, pow-suc 256 w)))
