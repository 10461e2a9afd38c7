-- ===== src/Oscar/Memory.antt =====
-- `memcpy` between an object and a `flap_storage`, the vector that holds a packet. Pointers into
-- the storage are offsets; an access that leaves the storage is a fault.
pub mod Fills
use proxy_channels.Base.{
  ℕ, ◌+◌, ◌≡◌, refl, ◌++◌, arith, Bytes, leb, le→leb, if◌then◌else◌, Result, ok, err, out_of_bounds,
  length, take, drop, length-append, take-length_append, drop-length_append, true, sym, ap,
}

abbrev pub Storage : Type 0
Storage = Bytes

-- memcpy(dst, &stg[at], n)
unfoldable pub read : ℕ → ℕ → Storage → Result Bytes
read at n stg = if leb (at + n) (length stg) then ok (take n (drop at stg)) else err out_of_bounds

-- memcpy(&stg[at], bs, bs.length())
unfoldable pub write : ℕ → Bytes → Storage → Result Storage
write at bs stg =
    if leb (at + length bs) (length stg)
    then ok (take at stg ++ (bs ++ drop (at + length bs) stg))
    else err out_of_bounds

module _ (p m s : Bytes) where
  -- The middle of a storage is read.
  pub read_middle :
      (stg : Storage) (at n : ℕ)
      → stg ≡ p ++ (m ++ s)
      → at ≡ length p
      → n ≡ length m
      → read at n stg ≡ ok m
  unfolding read
  read_middle stg at n e h k =
      rw (e, h, k, fits, drop-length_append p (m ++ s), take-length_append m s)
    where
      fits : leb (length p + length m) (length (p ++ (m ++ s))) ≡ true
      fits = le→leb _ _ (omega (arith, length-append {0} p (m ++ s), length-append {0} m s))
