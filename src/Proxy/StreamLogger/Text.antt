-- ===== src/Proxy/StreamLogger/Text.antt =====
-- The lines of a text, as the adaptor of a stream finds them.
use proxy_channels.Base.{
  ℕ, suc, ◌≤◌, ◌≡◌, refl, ap, List, [], ◌∷◌, ◌++◌, Bytes, true, ◌==◌, if◌then◌else◌, none, some,
  length, take, drop, arith, Bool-cases, Option-cases, inl, inr,
}
use proxy_channels.Proxy.StreamLogger.{is_empty, find_newline}

unfoldable pub longer : ℕ → List Bytes → List Bytes
longer c [] = []
longer c (l ∷ ls) = (c ∷ l) ∷ ls

-- The complete lines of a text, and what stands behind the last.
unfoldable pub lines : Bytes → List Bytes
unfolding longer
lines [] = []
lines (c ∷ s) = let rest = lines s in if c == 10 then (c ∷ []) ∷ rest else longer c rest

unfoldable pub rest_of : Bytes → Bytes
rest_of [] = []
rest_of (c ∷ s) =
    let rest = rest_of s in
    if c == 10 then rest else elim (find_newline s) [ none ↦ c ∷ s | some n ↦ rest ]

pub lines-none : (b : Bytes) → find_newline b ≡ none → (lines b ≡ []) × (rest_of b ≡ b)
unfolding lines rest_of find_newline
lines-none [] h = (refl, refl)
lines-none (c ∷ s) h = elim (Bool-cases (c == 10)) [
  | inl e ↦ absurd (some-none (rw e at h))
  | inr e ↦ elim (Option-cases (find_newline s)) [
    | inl f ↦ rw (e, f, (lines-none s f).0) (refl, refl)
    | inr f ↦ absurd (some-none (rw (e, f.1) at h))
  ]
]
  where
    some-none : {n : ℕ} → some n ≡ none → ⊥
    some-none h = ground arith

pub lines-some :
    (b : Bytes) (n : ℕ)
    → find_newline b ≡ some n
    → (lines b ≡ take (suc n) b ∷ lines (drop (suc n) b))
      × (rest_of b ≡ rest_of (drop (suc n) b))
      × (suc n ≤ length b)
unfolding lines rest_of find_newline
lines-some [] n h = absurd (ground arith)
lines-some (c ∷ s) n h = elim (Bool-cases (c == 10)) [
  | inl e ↦ rw (e, ← some_inj 0 n (rw e at h)) (refl, refl, omega arith)
  | inr e ↦ elim (Option-cases (find_newline s)) [
    | inl f ↦ absurd (none-some n (rw (e, f) at h))
    | inr f ↦
        let ih = lines-some s f.0 f.1 in
        rw (e, f.1, ← some_inj (suc f.0) n (rw (e, f.1) at h), ih.0)
          (refl, ih.1, omega (arith, ih.2))
  ]
]
  where
    some_inj : (a b : ℕ) → some a ≡ some b → a ≡ b
    some_inj a b h = ground arith

    none-some : (n : ℕ) → none ≡ some n → ⊥
    none-some n h = ground arith

pub rest_of-none : (b : Bytes) → find_newline (rest_of b) ≡ none
unfolding rest_of find_newline
rest_of-none [] = refl
rest_of-none (c ∷ s) = elim (Bool-cases (c == 10)) [
  | inl e ↦ rw e (rest_of-none s)
  | inr e ↦ elim (Option-cases (find_newline s)) [
    | inl f ↦ rw (e, f, e, f) refl
    | inr f ↦ rw (e, f.1) (rest_of-none s)
  ]
]

pub nothing : (b : Bytes) → is_empty b ≡ true → b ≡ []
unfolding is_empty
nothing [] h = refl
nothing (c ∷ s) h = ground arith

append-none :
    (x y : Bytes)
    → find_newline x ≡ none
    → (lines (x ++ y) ≡ lines x ++ lines (rest_of x ++ y))
      × (rest_of (x ++ y) ≡ rest_of (rest_of x ++ y))
append-none x y h = rw ((lines-none x h).0, (lines-none x h).1) (refl, refl)

find_newline-append :
    (x y : Bytes) (n : ℕ) → find_newline x ≡ some n → find_newline (x ++ y) ≡ some n
unfolding find_newline
find_newline-append [] y n h = absurd (ground arith)
find_newline-append (c ∷ s) y n h = elim (Bool-cases (c == 10)) [
  | inl e ↦ rw e (rw e at h)
  | inr e ↦ elim (Option-cases (find_newline s)) [
    | inl f ↦ absurd (none-some n (rw (e, f) at h))
    | inr f ↦ rw (e, find_newline-append s y f.0 f.1) (rw (e, f.1) at h)
  ]
]
  where
    none-some : (n : ℕ) → none ≡ some n → ⊥
    none-some n h = ground arith

-- A text is cut at any place, and the part behind the last line goes to the second half.
pub lines-append :
    (x y : Bytes)
    → (lines (x ++ y) ≡ lines x ++ lines (rest_of x ++ y))
      × (rest_of (x ++ y) ≡ rest_of (rest_of x ++ y))
unfolding lines rest_of find_newline
lines-append [] y = (refl, refl)
lines-append (c ∷ s) y = elim (Bool-cases (c == 10)) [
  | inl e ↦ let ih = lines-append s y in rw e (ap (λ l. (c ∷ []) ∷ l) ih.0, ih.1)
  | inr e ↦ elim (Option-cases (find_newline s)) [
    | inl f ↦ append-none (c ∷ s) y (rw (e, f) refl)
    | inr f ↦
        let ih = lines-append s y in
        let found = lines-some s f.0 f.1 in
        rw (e, f.1, find_newline-append s y f.0 f.1, ih.0, found.0) (refl, ih.1)
  ]
]
