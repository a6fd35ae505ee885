-- ===== src/Float/Value.antt =====
-- The values that a `float` can have, and that `std::stof` returns one.
use native.Mathlib.Decide.{dec_lt}
use native.Mathlib.Nat.{
  dvd_trans, dvd-mul_left, mul-div_cancel', mul_assoc, mul-le-mul_left, mul-le-mul_right,
  div-add-mod, mod-lt,
}
use tabmo_codding_challenge.Common.{
  ℕ, zero, suc, ◌*◌, ◌/◌, ◌^◌, ◌≤◌, ◌<◌, ◌∣◌, ◌≡◌, inl, inr, sym, ap, subst, ◌∙◌, Bool, arith,
}
use tabmo_codding_challenge.Float.{Float, nan, inf, fin, limit}
use tabmo_codding_challenge.Float.Round.{ulp, spacing, nearest, round_ratio, max_doublings}
use tabmo_codding_challenge.Float.Round.Error.{
  ulp_cases, double_shift, spacing_lem, spacing_pos, round_ratio_lem, nearest_cases,
}
use tabmo_codding_challenge.Float.Round.Exact.{IsRepresentable, round_ratio-IsRepresentable}

-- A value of the type `float`: a finite one has 24 bits and is below the limit.
abbrev pub IsFloat : Float → Type 0
IsFloat nan = Unit
IsFloat (inf s) = Unit
IsFloat (fin s mag) = IsRepresentable mag × (mag < limit)

ulp-dvd_max : (fuel num den unit : ℕ) → ulp fuel num den unit ∣ 2 ^ fuel * unit
ulp-dvd_max zero num den unit = unfold ulp in dvd-mul_left unit 1
ulp-dvd_max (suc fuel) num den unit = elim (ulp_cases fuel num den unit) [
  | inl (_, e) ↦ rw e (dvd-mul_left unit (2 ^ suc fuel))
  | inr (_, e) ↦ rw (e, double_shift fuel unit) (ulp-dvd_max fuel num den (2 * unit))
]

-- A number that is too large stays too large.
limit-le-round_ratio : (num den : ℕ) → 0 < den → den * limit ≤ num → limit ≤ round_ratio num den
limit-le-round_ratio num den pos h =
    let u = spacing num den in
    let d = den * u in
    let div : u ∣ limit =
      dvd_trans _ (rw (spacing_lem num den) (ulp-dvd_max max_doublings num den 1))
        (dvd-mul_left (2 ^ 253 * 1) (2 ^ 24)) in
    let k = limit / u in
    let whole : u * k ≡ limit = mul-div_cancel' u div in
    let pos' : 0 < d = grind (arith, spacing_pos num den) in
    let reach : d * k ≤ num =
      subst (λ t. t ≤ num) (ap (λ t. den * t) (sym whole) ∙ sym (mul_assoc den u k)) h in
    let quotient : k ≤ num / d = elim (dec_lt (num / d) k) [
      | yes p ↦ absurd (omega (arith, mul-le-mul_left d p, div-add-mod num d, mod-lt num pos'))
      | no p ↦ omega arith
    ] in
    let rounded : k ≤ nearest num d = elim (nearest_cases num d) [
      | inl (e, _) ↦ rw e quotient
      | inr (e, _) ↦ rw e (omega arith)
    ] in
    rw round_ratio_lem (omega (arith, mul-le-mul_right u rounded, whole))

round_ratio_small : (num den : ℕ) → 0 < den → round_ratio num den < limit → num < den * limit
round_ratio_small num den pos h = elim (dec_lt num (den * limit)) [
  | yes p ↦ p
  | no p ↦ absurd (let big = limit-le-round_ratio num den pos (omega arith) in omega arith)
]

-- A rounded number below the limit is the value of a `float`.
pub round_ratio-IsFloat :
    (sign : Bool) (num den : ℕ)
    → 0 < den
    → round_ratio num den < limit
    → IsFloat (fin sign (round_ratio num den))
round_ratio-IsFloat sign num den pos h =
    (round_ratio-IsRepresentable num den pos (round_ratio_small num den pos h), h)
