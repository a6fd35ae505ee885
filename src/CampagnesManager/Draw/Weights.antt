-- ===== src/CampagnesManager/Draw/Weights.antt =====
-- How far the weights of `RandomSelectCampagne` and their sums are from the exact percentages.
use native.Mathlib.Decide.{dec_lt}
use native.Mathlib.Nat.{mul-le-mul_left}
use tabmo_codding_challenge.Common.Int.{pos}
use tabmo_codding_challenge.Common.{ℕ, suc, ◌+◌, ◌*◌, ◌^◌, ◌≤◌, ◌<◌, ◌≡◌, false, arith, ◌==◌}
use tabmo_codding_challenge.Float.{fin, one, limit, add, add_fin, mul, div, finish}
use tabmo_codding_challenge.Float.Round.{round_ratio, spacing}
use tabmo_codding_challenge.Float.Round.Error.{round_ratio_error, spacing_lem, ulp_upper}
use tabmo_codding_challenge.CampagnesManager.Draw.{weight}
use tabmo_codding_challenge.CampagnesManager.Draw.Defined.{from_int_exact}

-- 2 ^ -15 percent, in units.
abbrev pub tolerance : ℕ
tolerance = 2 ^ 134

-- Two numbers that differ by no more than a margin.
abbrev pub IsNear : ℕ → ℕ → ℕ → Type 0
IsNear margin a b = (a ≤ b + margin) × (b ≤ a + margin)

-- Rounding a number below 2 ^ (24 + k) units moves it by half of 2 ^ k units at most.
round_ratio-IsNear :
    (k num den : ℕ)
    → 0 < den
    → num < den * (2 ^ k * 1) * 2 ^ 24
    → IsNear (den * 2 ^ k) (2 * (den * round_ratio num den)) (2 * num)
round_ratio-IsNear k num den some_den h =
    let (up, down) = round_ratio_error num den some_den in
    let narrow : spacing num den ≤ 2 ^ k * 1 = rw spacing_lem (ulp_upper k 253 num den 1 h) in
    let margin = mul-le-mul_left den narrow in
    (omega (arith, up, margin), omega (arith, down, margin))

mul-le_cancel : (s a b : ℕ) → 0 < s → s * a ≤ s * b → a ≤ b
mul-le_cancel s a b some_s h = elim (dec_lt b a) [
  | yes more ↦ absurd (omega (arith, mul-le-mul_left s more))
  | no less ↦ omega arith
]

module _ (s b : ℕ) (some_sum : 0 < s) (part : b ≤ 2 * s * one) where
  -- The quotient of a budget and the sum, and the weight.
  abbrev quotient : ℕ
  quotient = round_ratio (b * one) (s * one)

  abbrev pub percents : ℕ
  percents = round_ratio (quotient * (100 * one)) one

  quotient-IsNear : IsNear (s * 2 ^ 126) (s * quotient) b
  quotient-IsNear =
      let near = round_ratio-IsNear 127 (b * one) (s * one) (omega arith) (omega arith) in
      (omega (arith, near), omega (arith, near))

  quotient_bound : quotient ≤ 2 * one + 2 ^ 126
  quotient_bound =
      mul-le_cancel s quotient (2 * one + 2 ^ 126) some_sum (omega (arith, quotient-IsNear))

  percents-IsNear : IsNear (2 ^ 132) percents (100 * quotient)
  percents-IsNear =
      let near =
        round_ratio-IsNear 133 (quotient * (100 * one)) one (omega arith)
          (omega (arith, quotient_bound)) in
      (omega (arith, near), omega (arith, near))

  percents_lem : IsNear (s * (100 * 2 ^ 126 + 2 ^ 132)) (s * percents) (100 * b)
  percents_lem =
      let (up, down) = percents-IsNear in
      let (over, under) = quotient-IsNear in
      (omega (arith, mul-le-mul_left s up, over), omega (arith, mul-le-mul_left s down, under))

  finite : (m : ℕ) → m < limit → finish false m ≡ fin false m
  unfolding finish
  finite m h = ground arith

  percents_bound : percents ≤ 200 * one + 2 ^ 134
  percents_bound = omega (arith, percents-IsNear, quotient_bound)

  -- The code computes these numbers.
  pub weight_lem : s ≤ 2 ^ 24 → weight (pos s) (fin false b) ≡ fin false percents
  unfolding weight div mul
  weight_lem few =
      let some_units : (s * one == 0) ≡ false = ground arith in
      rw (from_int_exact s few, from_int_exact 100 (omega arith), div, some_units)
        (rw (finite quotient (omega (arith, quotient_bound)), mul)
          (finite percents (omega (arith, percents_bound))))

  -- After `i` weights, which add up to nearly the percentage of `p`, one more.
  module _ (i p x : ℕ) (many : i ≤ 16_777) (all : p + b ≤ 2 * s * one)
      (near : IsNear (i * tolerance * s) (s * x) (100 * p)) where
    abbrev pub next : ℕ
    next = round_ratio (x + percents) 1

    total_bound : x + percents ≤ 201 * one
    total_bound =
        mul-le_cancel s (x + percents) (201 * one) some_sum
          (omega (arith, near, percents_lem, mul-le-mul_left s many))

    next_error : IsNear (2 ^ 132) next (x + percents)
    next_error =
        let near =
          round_ratio-IsNear 133 (x + percents) 1 (omega arith) (omega (arith, total_bound)) in
        (omega (arith, near), omega (arith, near))

    pub next-IsNear : IsNear (suc i * tolerance * s) (s * next) (100 * (p + b))
    next-IsNear =
        let (up, down) = next_error in
        let (over, under) = percents_lem in
        (
          omega (arith, mul-le-mul_left s up, over, near),
          omega (arith, mul-le-mul_left s down, under, near),
        )

    pub add-percents : add (fin false x) (fin false percents) ≡ fin false next
    unfolding add add_fin
    add-percents = finite next (omega (arith, next_error, total_bound))
