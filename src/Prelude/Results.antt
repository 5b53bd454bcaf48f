-- ===== src/Prelude/Results.antt =====
-- Code that may throw a kj::Exception. What a handler logs of it is not modelled.
use mathlib.Core.Path.{◌≡◌, refl}
use mathlib.Core.Logic.{◌⊎◌, inl, inr}

pub data Result {ℓ} (A : Type ℓ) : Type ℓ where
  thrown : Result A
  ok : A → Result A

-- The rest of a block runs only where nothing was thrown.
abbrev pub and_then {ℓ κ} : {A : Type ℓ} {B : Type κ} → (A → Result B) → Result A → Result B
and_then rest thrown = thrown
and_then rest (ok value) = rest value

infixl 5 ◌>>=◌
abbrev pub ◌>>=◌ {ℓ κ} : {A : Type ℓ} {B : Type κ} → Result A → (A → Result B) → Result B
r >>= rest = and_then rest r

pub Result-cases {ℓ} : {A : Type ℓ} (r : Result A) → (r ≡ thrown) ⊎ ((a : A) × (r ≡ ok a))
Result-cases thrown = inl refl
Result-cases (ok a) = inr (a, refl)
