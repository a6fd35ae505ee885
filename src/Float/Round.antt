-- ===== src/Float/Round.antt =====
-- Rounding to the 24 significant bits of `float`, to the nearest and a tie to the even. The number
-- `num / den` counts units of 2 ^ -149, the smallest positive `float`.
pub mod Error
pub mod Exact
pub mod Ratio
use tabmo_codding_challenge.Common.{
  ℕ, zero, suc, ◌+◌, ◌*◌, ◌/◌, ◌%◌, ◌^◌, true, false, ltb, if◌then◌else◌,
}

-- The distance of neighbouring floats at `num / den`: the least power of two, doubled up from
-- `unit`, of which less than 2 ^ 24 make up the number.
unfoldable pub ulp : ℕ → ℕ → ℕ → ℕ → ℕ
ulp zero num den unit = unit
ulp (suc fuel) num den unit = elim (ltb num (den * unit * 2 ^ 24)) [
  | true ↦ unit
  | false ↦ ulp fuel num den (2 * unit)
]

-- `num / den` rounded to a whole number.
unfoldable pub nearest : ℕ → ℕ → ℕ
nearest num den =
    let whole = num / den in
    let rest = num % den in
    if ltb (2 * rest) den
    then whole
    else if ltb den (2 * rest)
    then whole + 1
    else whole + whole % 2

-- 253 doublings reach the spacing of the largest floats, which are below 2 ^ 277 units.
abbrev pub max_doublings : ℕ
max_doublings = 253

unfoldable pub spacing : ℕ → ℕ → ℕ
unfolding ulp
spacing num den = ulp max_doublings num den 1

unfoldable pub round_ratio : ℕ → ℕ → ℕ
unfolding spacing nearest
round_ratio num den = nearest num (den * spacing num den) * spacing num den
