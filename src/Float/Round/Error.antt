-- ===== src/Float/Round/Error.antt =====
-- How far rounding moves a number.
use native.Mathlib.Nat.{
  mul_assoc, pow-suc, div-add-mod, mod-lt, mul-mod_left, mul-div_cancel, mul-le-mul_right, dvd_refl,
  dvd_trans, dvd-mul_left,
}
use tabmo_codding_challenge.Common.{
  ℕ, zero, suc, ◌+◌, ◌*◌, ◌/◌, ◌%◌, ◌^◌, ◌≤◌, ◌<◌, ◌∣◌, ◌≡◌, refl, ◌⊎◌, inl, inr, arith, ltb,
  ltb→lt, Bool-cases,
}
use tabmo_codding_challenge.Float.Round.{ulp, nearest, spacing, round_ratio, max_doublings}

-- It goes to the whole number below or above, whichever is not further away.
pub nearest_cases :
    (num den : ℕ)
    → ((nearest num den ≡ num / den) × (2 * (num % den) ≤ den))
      ⊎ ((nearest num den ≡ num / den + 1) × (den ≤ 2 * (num % den)))
unfolding nearest
nearest_cases num den = ground (arith, mod-lt (num / den) {m = 2} (omega arith))

-- Rounding to a whole number moves by half at most.
pub nearest_error :
    (num den : ℕ)
    → 0 < den
    → (2 * (nearest num den * den) ≤ 2 * num + den) × (2 * num ≤ 2 * (nearest num den * den) + den)
nearest_error num den h = elim (nearest_cases num den) [
  | inl (e, below) ↦ rw e (omega (arith, div-add-mod num den, mod-lt num h))
  | inr (e, above) ↦ rw e (omega (arith, div-add-mod num den, mod-lt num h))
]

-- A whole number stays as it is.
pub nearest_exact : (k den : ℕ) → 0 < den → nearest (k * den) den ≡ k
unfolding nearest
nearest_exact k den h = rw (mul-mod_left k den, mul-div_cancel k h) (ground arith)

ulp_pos : (fuel num den unit : ℕ) → 0 < unit → 0 < ulp fuel num den unit
unfolding ulp
ulp_pos zero num den unit h = h
ulp_pos (suc fuel) num den unit h = ground (arith, ulp_pos fuel num den (2 * unit))

two-pow-pos : (k : ℕ) → 0 < 2 ^ k
two-pow-pos zero = omega arith
two-pow-pos (suc k) = rw pow-suc (omega (arith, two-pow-pos k))

pub double_shift : (k unit : ℕ) → 2 ^ suc k * unit ≡ 2 ^ k * (2 * unit)
double_shift k unit = rw (pow-suc, mul_assoc)

-- The two cases of a round of the loop.
pub ulp_cases :
    (fuel num den unit : ℕ)
    → ((num < den * unit * 2 ^ 24) × (ulp (suc fuel) num den unit ≡ unit))
      ⊎ ((den * unit * 2 ^ 24 ≤ num) × (ulp (suc fuel) num den unit ≡ ulp fuel num den (2 * unit)))
unfolding ulp
ulp_cases fuel num den unit = elim (Bool-cases (ltb num (den * unit * 2 ^ 24))) [
  | inl small ↦ inl (ltb→lt _ _ small, rw (small, ulp))
  | inr big ↦ inr (ground arith, rw (big, ulp))
]

-- The spacing is no more than a power of two that is wide enough.
pub ulp_upper :
    (k fuel num den unit : ℕ)
    → num < den * (2 ^ k * unit) * 2 ^ 24
    → ulp fuel num den unit ≤ 2 ^ k * unit
ulp_upper k zero num den unit h =
    unfold ulp in omega (arith, mul-le-mul_right {m = 1} {n = 2 ^ k} unit (two-pow-pos k))
ulp_upper zero (suc fuel) num den unit h = elim (ulp_cases fuel num den unit) [
  | inl (_, e) ↦ omega arith
  | inr (big, _) ↦ absurd (omega arith)
]
ulp_upper (suc k) (suc fuel) num den unit h = elim (ulp_cases fuel num den unit) [
  | inl (_, e) ↦ omega (arith, mul-le-mul_right {m = 1} {n = 2 ^ suc k} unit (two-pow-pos (suc k)))
  | inr (_, e) ↦
      rw (e, double_shift k unit)
        (ulp_upper k fuel num den (2 * unit) (rw (← double_shift k unit) h))
]

-- Where the spacing was doubled, the number has its 24 bits.
pub ulp_normal :
    (fuel num den unit : ℕ)
    → (ulp fuel num den unit ≡ unit) ⊎ (den * ulp fuel num den unit * 2 ^ 23 ≤ num)
ulp_normal zero num den unit = unfold ulp in inl refl
ulp_normal (suc fuel) num den unit = elim (ulp_cases fuel num den unit) [
  | inl (_, e) ↦ inl e
  | inr (big, e) ↦ rw e (elim (ulp_normal fuel num den (2 * unit)) [
    | inl e' ↦ rw e' (inr (omega arith))
    | inr normal ↦ inr normal
  ])
]

-- The spacing is a multiple of the one that the loop starts from.
pub unit-dvd-ulp : (fuel num den unit : ℕ) → unit ∣ ulp fuel num den unit
unit-dvd-ulp zero num den unit = unfold ulp in dvd_refl unit
unit-dvd-ulp (suc fuel) num den unit = elim (ulp_cases fuel num den unit) [
  | inl (_, e) ↦ rw e (dvd_refl unit)
  | inr (_, e) ↦ rw e (dvd_trans unit (dvd-mul_left unit 2) (unit-dvd-ulp fuel num den (2 * unit)))
]

-- The spacing at a number divides the spacing at every larger one.
pub ulp-dvd-ulp : (fuel a b den unit : ℕ) → a ≤ b → ulp fuel a den unit ∣ ulp fuel b den unit
ulp-dvd-ulp zero a b den unit h = unfold ulp in dvd_refl unit
ulp-dvd-ulp (suc fuel) a b den unit h = elim (ulp_cases fuel a den unit) [
  | inl (_, e) ↦ rw e (unit-dvd-ulp (suc fuel) b den unit)
  | inr (big, e) ↦ elim (ulp_cases fuel b den unit) [
    | inl (small, _) ↦ absurd (omega arith)
    | inr (_, e') ↦ rw (e, e') (ulp-dvd-ulp fuel a b den (2 * unit) h)
  ]
]

-- What the other proofs read of `round_ratio`, whose loop of 253 rounds they leave shut.
pub spacing_lem : (num den : ℕ) → spacing num den ≡ ulp max_doublings num den 1
unfolding spacing
spacing_lem num den = refl

pub round_ratio_lem :
    (num den : ℕ) → round_ratio num den ≡ nearest num (den * spacing num den) * spacing num den
unfolding round_ratio
round_ratio_lem num den = refl

pub spacing_pos : (num den : ℕ) → 0 < spacing num den
spacing_pos num den = rw spacing_lem (ulp_pos max_doublings num den 1 (omega arith))

-- A rounded number differs from the exact one by half the spacing at most.
pub round_ratio_error :
    (num den : ℕ)
    → 0 < den
    → (2 * (den * round_ratio num den) ≤ 2 * num + den * spacing num den)
      × (2 * num ≤ 2 * (den * round_ratio num den) + den * spacing num den)
round_ratio_error num den h =
    let pos : 0 < den * spacing num den = grind (arith, spacing_pos num den) in
    let (up, down) = nearest_error num (den * spacing num den) pos in
    rw round_ratio_lem (omega (arith, up), omega (arith, down))
