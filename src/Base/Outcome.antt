-- ===== src/Base/Outcome.antt =====
-- The outcome of fallible code: a value, an exception, or a fault of the memory model.
use mathlib.Core.Path.{◌≡◌, refl, ap}
use mathlib.Core.Logic.{◌⊎◌, inl, inr}

-- The exceptions that the source throws, and what the model adds to them.
pub data Error : Type 0 where
  -- std::runtime_error, one constructor for each message
  flap_structure snac_structure snac_iterate snac_overflow tlv_protocol wrong_package
        cannot_connect :
      Error
  -- `assert` fails
  assertion : Error
  -- an access outside the storage, undefined in the source
  out_of_bounds : Error
  -- a loop of the source has used up the fuel of its model
  out_of_fuel : Error

pub data Result {ℓ} (A : Type ℓ) : Type ℓ where
  ok : A → Result A
  err : Error → Result A

infixl 10 ◌>>=◌
abbrev pub ◌>>=◌ {ℓ κ} : {A : Type ℓ} {B : Type κ} → Result A → (A → Result B) → Result B
ok a >>= f = f a
err e >>= f = err e

pub Result-cases {ℓ} :
    {A : Type ℓ} (r : Result A) → ((a : A) × (r ≡ ok a)) ⊎ ((x : Error) × (r ≡ err x))
Result-cases (ok a) = inl (a, refl)
Result-cases (err x) = inr (x, refl)

-- A chain that fails after its first step has succeeded or failed there.
pub from_bind {ℓ κ} :
    {A : Type ℓ} {B : Type κ} (r : Result A) (f : A → B) {x : Error}
    → (r >>= λ a. ok (f a)) ≡ err x
    → r ≡ err x
from_bind (ok a) f h = cc
from_bind (err x) f h = cc

module _ {ℓ κ λ'} {A : Type ℓ} {B : Type κ} {C : Type λ'} where
  -- The first two steps of a chain, taken together.
  pub bind_pair :
      (m : Result A) (k : A → Result B) (g : B → Result C) {b : B}
      → m >>= k ≡ ok b
      → (m >>= λ a. k a >>= g) ≡ g b
  bind_pair (ok a) k g h = ap (λ r. r >>= g) h
  bind_pair (err e) k g h = ap (λ r. r >>= g) h

module _ {ℓ κ} {A : Type ℓ} {B : Type κ} where
  pub bind_ext : (r : Result A) (f g : A → Result B) → ((a : A) → f a ≡ g a) → (r >>= f) ≡ (r >>= g)
  bind_ext (ok a) f g h = h a
  bind_ext (err x) f g h = refl
