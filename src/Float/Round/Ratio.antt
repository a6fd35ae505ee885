-- ===== src/Float/Round/Ratio.antt =====
-- The quotient of two whole numbers up to 2896, rounded: it tells their ratio.
use native.Mathlib.Nat.{
  mul_assoc, mul_comm, mul-div-mul_left, div-add-mod, mul-lt-mul_of_pos_left, lt_of_mul-lt-mul_left,
  mul-le-mul_left, mul-le-mul_right, mul-le-mul,
}
use tabmo_codding_challenge.Common.{
  ℕ, zero, suc, ◌+◌, ◌-◌, ◌*◌, ◌/◌, ◌%◌, ◌^◌, ◌≤◌, ◌<◌, ◌≡◌, ◌↔◌, refl, sym, ap, ◌∙◌, inl, inr,
  arith, ltb, ltb→lt, lt→ltb, Bool-cases,
}
use tabmo_codding_challenge.Float.{one}
use tabmo_codding_challenge.Float.Round.{ulp, nearest, spacing, round_ratio, max_doublings}
use tabmo_codding_challenge.Float.Round.Error.{
  ulp_normal, spacing_lem, round_ratio_lem, round_ratio_error,
}

ltb-mul : (k x y : ℕ) → 0 < k → ltb (k * x) (k * y) ≡ ltb x y
ltb-mul k x y pos = elim (Bool-cases (ltb x y)) [
  | inl small ↦ lt→ltb (k * x) (k * y) (mul-lt-mul_of_pos_left (ltb→lt x y small) pos) ∙ sym small
  | inr big ↦ elim (Bool-cases (ltb (k * x) (k * y))) [
    | inl h ↦ h ∙ sym (lt→ltb x y (lt_of_mul-lt-mul_left k (ltb→lt _ _ h)))
    | inr h ↦ h ∙ sym big
  ]
]

ulp-mul :
    (k fuel num den unit : ℕ) → 0 < k → ulp fuel (k * num) (k * den) unit ≡ ulp fuel num den unit
unfolding ulp
ulp-mul k zero num den unit pos = refl
ulp-mul k (suc fuel) num den unit pos =
    let same : ltb (k * num) (k * den * unit * 2 ^ 24) ≡ ltb num (den * unit * 2 ^ 24) =
      ap (ltb (k * num))
        (ap (λ t. t * 2 ^ 24) (mul_assoc k den unit) ∙ mul_assoc k (den * unit) (2 ^ 24))
      ∙ ltb-mul k num (den * unit * 2 ^ 24) pos in
    elim (Bool-cases (ltb num (den * unit * 2 ^ 24))) [
      | inl small ↦ rw (same ∙ small, small, ulp) refl
      | inr big ↦ rw (same ∙ big, big, ulp) (ulp-mul k fuel num den (2 * unit) pos)
    ]

mod-mul : (k num den : ℕ) → 0 < k → k * num % (k * den) ≡ k * (num % den)
mod-mul k num den pos =
    let whole : k * den * (num / den) + k * num % (k * den) ≡ k * num =
      ap (λ q. k * den * q + k * num % (k * den)) (sym (mul-div-mul_left num den pos))
      ∙ div-add-mod (k * num) (k * den) in
    let parts : k * (den * (num / den) + num % den) ≡ k * num =
      ap (λ t. k * t) (div-add-mod num den) in
    omega arith

nearest-mul : (k num den : ℕ) → 0 < k → nearest (k * num) (k * den) ≡ nearest num den
unfolding nearest
nearest-mul k num den pos =
    let left : ltb (2 * (k * (num % den))) (k * den) ≡ ltb (2 * (num % den)) den =
      ap (λ t. ltb t (k * den)) (omega arith) ∙ ltb-mul k (2 * (num % den)) den pos in
    let right : ltb (k * den) (2 * (k * (num % den))) ≡ ltb den (2 * (num % den)) =
      ap (ltb (k * den)) (omega arith) ∙ ltb-mul k den (2 * (num % den)) pos in
    rw (mod-mul k num den pos, mul-div-mul_left num den pos, left, right) refl

-- Rounding looks at the ratio only.
round_ratio-mul : (k num den : ℕ) → 0 < k → round_ratio (k * num) (k * den) ≡ round_ratio num den
round_ratio-mul k num den pos =
    let same : spacing (k * num) (k * den) ≡ spacing num den =
      rw (spacing_lem, spacing_lem) (ulp-mul k max_doublings num den 1 pos) in
    rw (round_ratio_lem, same, round_ratio_lem num den)
      (ap (λ t. t * spacing num den)
        (ap (nearest (k * num)) (mul_assoc k den (spacing num den))
          ∙ nearest-mul k num (den * spacing num den) pos))

-- From 2 ^ 23 on, a number is rounded by one part in 2 ^ 24 at most.
round_ratio_relative :
    (num den : ℕ)
    → 0 < den
    → den * 2 ^ 23 ≤ num
    → (2 ^ 24 * (den * round_ratio num den) ≤ (2 ^ 24 + 1) * num)
      × ((2 ^ 24 - 1) * num ≤ 2 ^ 24 * (den * round_ratio num den))
round_ratio_relative num den pos big =
    let (up, down) = round_ratio_error num den pos in
    let fine : den * spacing num den * 2 ^ 23 ≤ num =
      rw spacing_lem (elim (ulp_normal max_doublings num den 1) [
        | inl e ↦ rw e (omega arith)
        | inr normal ↦ normal
      ]) in
    (omega arith, omega arith)

-- The quotient of two whole numbers.
abbrev pub quotient : ℕ → ℕ → ℕ
quotient a b = round_ratio (a * one * one) (b * one)

quotient_lem : (a b : ℕ) → quotient a b ≡ round_ratio (a * one) b
quotient_lem a b =
    ap (λ t. round_ratio t (b * one)) (mul_comm (a * one) one)
    ∙ ap (round_ratio (one * (a * one))) (mul_comm b one)
    ∙ round_ratio-mul one (a * one) b (omega arith)

quotient_same : (a b c d : ℕ) → 0 < b → 0 < d → a * d ≡ c * b → quotient a b ≡ quotient c d
quotient_same a b c d pos_b pos_d e =
    let cross : d * (a * one) ≡ b * (c * one) = omega arith in
    quotient_lem a b
    ∙ sym (round_ratio-mul d (a * one) b pos_d)
    ∙ ap (λ t. round_ratio t (d * b)) cross
    ∙ ap (round_ratio (b * (c * one))) (mul_comm d b)
    ∙ round_ratio-mul b (c * one) d pos_b
    ∙ sym (quotient_lem c d)

-- A ratio of numbers up to 2896 is not rounded to a smaller one's quotient.
quotient-le :
    (a b c d : ℕ)
    → 0 < a
    → 0 < b
    → 0 < c
    → 0 < d
    → b ≤ 2_896
    → d ≤ 2_896
    → a * d < 2 ^ 23
    → quotient a b ≡ quotient c d
    → c * b ≤ a * d
quotient-le a b c d pos_a pos_b pos_c pos_d small_b small_d few e =
    let q = quotient a b in
    let (up, _) = round_ratio_relative (a * one) b pos_b (omega arith) in
    let (_, down) = round_ratio_relative (c * one) d pos_d (omega arith) in
    let up' : 2 ^ 24 * (b * q) ≤ (2 ^ 24 + 1) * (a * one) = rw (quotient_lem a b) up in
    let down' : (2 ^ 24 - 1) * (c * one) ≤ 2 ^ 24 * (d * q) = rw (e, quotient_lem c d) down in
    let up'' : d * (2 ^ 24 * (b * q)) ≤ d * ((2 ^ 24 + 1) * (a * one)) = mul-le-mul_left d up' in
    let down'' : b * ((2 ^ 24 - 1) * (c * one)) ≤ b * (2 ^ 24 * (d * q)) =
      mul-le-mul_left b down' in
    omega arith

pub quotient-lt : (a b : ℕ) → 0 < a → 0 < b → a ≤ 2_896 → b ≤ 2_896 → quotient a b < 2 ^ 277
quotient-lt a b pos_a pos_b small_a small_b =
    let (up, _) = round_ratio_relative (a * one) b pos_b (omega arith) in
    let whole : 1 * round_ratio (a * one) b ≤ b * round_ratio (a * one) b =
      mul-le-mul_right (round_ratio (a * one) b) pos_b in
    rw quotient_lem (omega arith)

-- So the quotients of numbers from 1 to 2896 are equal exactly when the ratios are.
pub quotient_iff :
    (a b c d : ℕ)
    → 0 < a
    → 0 < b
    → 0 < c
    → 0 < d
    → a ≤ 2_896
    → b ≤ 2_896
    → c ≤ 2_896
    → d ≤ 2_896
    → (quotient a b ≡ quotient c d) ↔ (a * d ≡ c * b)
quotient_iff a b c d pos_a pos_b pos_c pos_d small_a small_b small_c small_d =
    let few : a * d < 2 ^ 23 = omega (arith, mul-le-mul small_a small_d) in
    let few' : c * b < 2 ^ 23 = omega (arith, mul-le-mul small_c small_b) in
    (
      λ e. omega (
        arith,
        quotient-le a b c d pos_a pos_b pos_c pos_d small_b small_d few e,
        quotient-le c d a b pos_c pos_d pos_a pos_b small_d small_b few' (sym e),
      ),
      quotient_same a b c d pos_b pos_d,
    )
