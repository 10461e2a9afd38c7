-- ===== src/Oscar/Memory/Fills.antt =====
-- Writers that go through a storage from left to right.
use proxy_channels.Base.{
  ◌+◌, ◌≤◌, ◌≡◌, true, sym, ap, ◌∙◌, ◌++◌, arith, Bytes, ℕ, leb, le→leb, Result, ok, ◌>>=◌, length,
  drop, length-append, length-drop, take-length_append, drop-length_append, drop-drop, append_assoc,
}
use proxy_channels.Oscar.Memory.{Storage, write}

-- Behind the prefix `p`, `f` overwrites the storage with `bs` and changes nothing else.
pub record Fills (f : Storage → Result Storage) (p bs : Bytes) : Type 0 where
  pub at_rest :
      (q : Bytes) → length bs ≤ length q → f (p ++ q) ≡ ok (p ++ (bs ++ drop (length bs) q))

pub Fills-write : (p bs : Bytes) (at : ℕ) → at ≡ length p → Fills (write at bs) p bs
unfolding write
Fills-write p bs at e = record { at_rest = λ q h. rw (e, fits q h, take-length_append p q, rest q) }
  where
    fits : (q : Bytes) → length bs ≤ length q → leb (length p + length bs) (length (p ++ q)) ≡ true
    fits q h = le→leb _ _ (omega (arith, length-append {0} p q))

    rest : (q : Bytes) → drop (length p + length bs) (p ++ q) ≡ drop (length bs) q
    rest q =
        sym (drop-drop (length bs) (length p) (p ++ q))
        ∙ ap (drop (length bs)) (drop-length_append p q)

module _ {f g : Storage → Result Storage} (p bs cs : Bytes) (at_p : Fills f p bs)
    (behind : Fills g (p ++ bs) cs) where
  -- One writer after another.
  pub Fills-seq : Fills (λ s. f s >>= g) p (bs ++ cs)
  Fills-seq = record {
    at_rest = λ q h. rw (
      at_p.at_rest q (omega (arith, length-append {0} bs cs)),
      ← append_assoc p bs (drop (length bs) q),
      behind.at_rest (drop (length bs) q)
          (omega (arith, length-append {0} bs cs, length-drop {0} (length bs) q)),
      drop-drop (length cs) (length bs) q,
      ← length-append bs cs,
      append_assoc p bs (cs ++ drop (length (bs ++ cs)) q),
      append_assoc bs cs (drop (length (bs ++ cs)) q),
    );
  }
