-- ===== src/Base/Options.antt =====
-- Results that may be missing.
use mathlib.Core.Path.{◌≡◌, refl}
use mathlib.Core.Logic.{◌⊎◌, inl, inr}
use mathlib.Core.Option
use mathlib.Core.Option.{Option, none, some}

module _ {ℓ} {A : Type ℓ} where
  pub some-inj : {a b : A} → some a ≡ some b → a ≡ b
  some-inj {a} {b} e = Option.some-injective a b e

  pub Option-cases : (o : Option A) → (o ≡ none) ⊎ ((a : A) × (o ≡ some a))
  Option-cases none = inl refl
  Option-cases (some a) = inr (a, refl)

module _ {ℓ κ} {A : Type ℓ} {B : Type κ} where
  pub map-eq_some :
      (f : A → B) (o : Option A) {b : B}
      → Option.map f o ≡ some b
      → (a : A) × (o ≡ some a) × (f a ≡ b)
  map-eq_some f none e = cc
  map-eq_some f (some a) e = (a, refl, some-inj e)
