-- ===== src/Common/Errors.antt =====
-- Rust's `Result`, its error first, and what the code does with one.
use mathlib.Core.Path.{◌≡◌, refl}

pub data Result {ℓ} (E : Type ℓ) (A : Type ℓ) : Type ℓ where
  ok : A → Result E A
  err : E → Result E A

module _ {ℓ} {E : Type ℓ} {A : Type ℓ} where
  pub ok_injective : {x y : A} → ◌≡◌ {A = Result E A} (ok x) (ok y) → x ≡ y
  ok_injective same = cc same

  -- The operator `?`: an error ends the function.
  infixl 5 ◌>>=◌
  abbrev pub ◌>>=◌ : {B : Type ℓ} → Result E A → (A → Result E B) → Result E B
  ◌>>=◌ r next = elim r [ err e ↦ err e | ok x ↦ next x ]

  -- A function that ran past a `?` to a good end had a good value there.
  pub ok_behind :
      {B : Type ℓ} (r : Result E A) (next : A → Result E B) {y : B}
      → (r >>= next) ≡ ok y
      → (x : A) × (r ≡ ok x) × (next x ≡ ok y)
  ok_behind (err e) next good = absurd (cc good)
  ok_behind (ok x) next good = (x, refl, good)
