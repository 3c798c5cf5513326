-- ===== src/Base/Errors.antt =====
-- Errors as values: what goes on behind a result, unless there is none.
use mathlib.Core.Path.{◌≡◌, refl}
use mathlib.Core.Option.{Option, none, some}

module _ {ℓ κ} {A : Type ℓ} {B : Type κ} where
  abbrev pub bind : Option A → (A → Option B) → Option B
  bind none f = none
  bind (some a) f = f a

  pub bind_inv :
      (o : Option A) (f : A → Option B) (x : B)
      → bind o f ≡ some x
      → (a : A) × (o ≡ some a) × (f a ≡ some x)
  bind_inv none f x h = absurd cc
  bind_inv (some a) f x h = (a, refl, h)
