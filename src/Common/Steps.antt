-- ===== src/Common/Steps.antt =====
-- A step that is repeated.
use Prim.Native.Nat.{ℕ, zero, suc}
use mathlib.Core.Path.{◌≡◌, refl}

module _ {ℓ} {A : Type ℓ} where
  abbrev pub repeat : ℕ → (A → A) → A → A
  repeat zero f x = x
  repeat (suc n) f x = repeat n f (f x)

  -- Some number of steps leads from `x` to `y`.
  abbrev pub Reaches : (A → A) → A → A → Type ℓ
  Reaches f x y = (n : ℕ) × (repeat n f x ≡ y)

  pub Reaches-step : (f : A → A) (x y z : A) → f x ≡ y → Reaches f y z → Reaches f x z
  Reaches-step f x y z e (n, r) = (suc n, rw e r)

  pub Reaches-trans : (f : A → A) (x y z : A) → Reaches f x y → Reaches f y z → Reaches f x z
  Reaches-trans f x y z (zero, e) later = rw e later
  Reaches-trans f x y z (suc n, e) later =
      Reaches-step f x (f x) z refl (Reaches-trans f (f x) y z (n, e) later)
