-- ===== src/Oscar/Endian/Swap.antt =====
-- The conversions of a little-endian host, which swap the bytes: they meet the interface.
use native.Mathlib.Nat.{pow-suc}
use mathlib.Core.List.{reverse, reverse-reverse, reverse-cons}
use proxy_channels.Base.{
  ℕ, zero, suc, ◌+◌, ◌*◌, ◌/◌, ◌%◌, ◌^◌, ◌<◌, ◌≡◌, refl, [], ◌∷◌, ◌++◌, arith, Bytes, length,
  length-append, ap, ◌∙◌,
}
use proxy_channels.Oscar.Endian.{
  Endian, object_bytes, object_value, length-object_bytes, object_value-object_bytes,
}

unfoldable pub byte_swap : ℕ → ℕ → ℕ
byte_swap w v = object_value (reverse (object_bytes w v))

abbrev AllBytes : Bytes → Type 0
AllBytes [] = Unit
AllBytes (b ∷ bs) = (b < 256) × AllBytes bs

object_bytes-AllBytes : (w v : ℕ) → AllBytes (object_bytes w v)
unfolding object_bytes
object_bytes-AllBytes zero v = tt
object_bytes-AllBytes (suc w) v = (omega arith, object_bytes-AllBytes w (v / 256))

AllBytes-append : (s t : Bytes) → AllBytes s → AllBytes t → AllBytes (s ++ t)
AllBytes-append [] t p q = q
AllBytes-append (b ∷ s) t p q = (p.0, AllBytes-append s t p.1 q)

AllBytes-reverse : (s : Bytes) → AllBytes s → AllBytes (reverse s)
AllBytes-reverse [] p = tt
AllBytes-reverse (b ∷ s) p =
    rw (reverse-cons b s) (AllBytes-append (reverse s) (b ∷ []) (AllBytes-reverse s p.1) (p.0, tt))

length-reverse : (s : Bytes) → length (reverse s) ≡ length s
length-reverse [] = refl
length-reverse (b ∷ s) =
    rw (reverse-cons b s) (omega (arith, length-append {0} (reverse s) (b ∷ []), length-reverse s))

object_value-lt : (s : Bytes) → AllBytes s → object_value s < 256 ^ length s
unfolding object_value
object_value-lt [] p = omega arith
object_value-lt (b ∷ s) p = omega (arith, object_value-lt s p.1, pow-suc 256 (length s))

object_bytes-object_value : (s : Bytes) → AllBytes s → object_bytes (length s) (object_value s) ≡ s
unfolding object_value object_bytes
object_bytes-object_value [] p = refl
object_bytes-object_value (b ∷ s) p =
    rw (head, tail) (ap (λ l. b ∷ l) (object_bytes-object_value s p.1))
  where
    head : (b + 256 * object_value s) % 256 ≡ b
    head = omega arith

    tail : (b + 256 * object_value s) / 256 ≡ object_value s
    tail = omega arith

module _ (w v : ℕ) where
  swapped_length : length (reverse (object_bytes w v)) ≡ w
  swapped_length = omega (arith, length-reverse (object_bytes w v), length-object_bytes w v)

  pub byte_swap-lt : byte_swap w v < 256 ^ w
  unfolding byte_swap
  byte_swap-lt = rw swapped_length at (
      object_value-lt (reverse (object_bytes w v))
        (AllBytes-reverse (object_bytes w v) (object_bytes-AllBytes w v)))

  swapped_bytes : object_bytes w (byte_swap w v) ≡ reverse (object_bytes w v)
  unfolding byte_swap
  swapped_bytes = rw swapped_length at (
      object_bytes-object_value (reverse (object_bytes w v))
        (AllBytes-reverse (object_bytes w v) (object_bytes-AllBytes w v)))

pub byte_swap-byte_swap : (w v : ℕ) → v < 256 ^ w → byte_swap w (byte_swap w v) ≡ v
unfolding byte_swap
byte_swap-byte_swap w v h =
    ap (λ s. object_value (reverse s)) (swapped_bytes w v)
    ∙ ap object_value (reverse-reverse _)
    ∙ object_value-object_bytes w v h

-- The host that the build scripts target.
abbrev pub little_endian_host : Endian
little_endian_host = record {
  native_to_big = byte_swap;
  big_to_native = byte_swap;
  native_to_big-lt = λ w v _. byte_swap-lt w v;
  big_to_native-native_to_big = byte_swap-byte_swap;
}
