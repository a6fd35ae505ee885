-- ===== src/Float/Round/Exact.antt =====
-- The magnitudes that a `float` holds, which rounding leaves alone and never crosses.
use native.Mathlib.Nat.{
  mul_comm, one-mul, div-add-mod, mul-le-mul_right, mul-le-mul_left, mul-div-le, mul-le-mul_left,
  mul-div-le, dvd_refl, dvd_trans, dvd-mul_left, mul-div_cancel',
}
use native.Mathlib.Decide.{dec_lt}
use tabmo_codding_challenge.Common.{
  ℕ, zero, suc, ◌*◌, ◌/◌, ◌^◌, ◌≤◌, ◌<◌, ◌∣◌, ◌≡◌, sym, ap, subst, ◌∙◌, inl, inr, arith,
}
use tabmo_codding_challenge.Float.Round.{ulp, nearest, spacing, round_ratio, max_doublings}
use tabmo_codding_challenge.Float.Round.Error.{
  nearest_cases, nearest_exact, ulp_cases, double_shift, unit-dvd-ulp, ulp-dvd-ulp, round_ratio_lem,
  spacing_lem, spacing_pos,
}

-- A magnitude in units that a `float` holds exactly.
abbrev pub IsRepresentable : ℕ → Type 0
IsRepresentable mag = spacing mag 1 ∣ mag

ulp_fits :
    (fuel num den unit : ℕ)
    → num < den * (2 ^ fuel * unit) * 2 ^ 24
    → num < den * ulp fuel num den unit * 2 ^ 24
ulp_fits zero num den unit h = unfold ulp in omega arith
ulp_fits (suc fuel) num den unit h = elim (ulp_cases fuel num den unit) [
  | inl (small, e) ↦ rw e small
  | inr (_, e) ↦ rw e (ulp_fits fuel num den (2 * unit) (rw (← double_shift fuel unit) h))
]

-- The spacing at a number below 2 ^ 24 spacings of another one, and below twice as many.
ulp-dvd_of_lt :
    (fuel num den b unit : ℕ)
    → b < ulp fuel num den unit * 2 ^ 24
    → ulp fuel b 1 unit ∣ ulp fuel num den unit
ulp-dvd_of_lt zero num den b unit h = unfold ulp in dvd_refl unit
ulp-dvd_of_lt (suc fuel) num den b unit h = elim (ulp_cases fuel b 1 unit) [
  | inl (_, e') ↦ rw e' (unit-dvd-ulp (suc fuel) num den unit)
  | inr (big, e') ↦ elim (ulp_cases fuel num den unit) [
    | inl (_, e) ↦ absurd (let h' = rw e at h in omega arith)
    | inr (_, e) ↦ rw (e, e') (ulp-dvd_of_lt fuel num den b (2 * unit) (rw e at h))
  ]
]

ulp_stops : (fuel num unit : ℕ) → num < unit * 2 ^ 24 → ulp fuel num 1 unit ∣ unit
ulp_stops zero num unit h = unfold ulp in dvd_refl unit
ulp_stops (suc fuel) num unit h = elim (ulp_cases fuel num 1 unit) [
  | inl (_, e) ↦ rw e (dvd_refl unit)
  | inr (big, _) ↦ absurd (omega arith)
]

ulp-dvd_double :
    (fuel num den b unit : ℕ)
    → b < ulp fuel num den unit * 2 ^ 25
    → ulp fuel b 1 unit ∣ 2 * ulp fuel num den unit
ulp-dvd_double zero num den b unit h = unfold ulp in dvd-mul_left unit 2
ulp-dvd_double (suc fuel) num den b unit h = elim (ulp_cases fuel b 1 unit) [
  | inl (_, e') ↦ rw e' (dvd_trans unit (unit-dvd-ulp (suc fuel) num den unit) (dvd-mul_left _ 2))
  | inr (big, e') ↦ elim (ulp_cases fuel num den unit) [
    | inl (_, e) ↦ rw (e, e') (ulp_stops fuel b (2 * unit) (let h' = rw e at h in omega arith))
    | inr (_, e) ↦ rw (e, e') (ulp-dvd_double fuel num den b (2 * unit) (rw e at h))
  ]
]

nearest-le : (a b d : ℕ) → 0 < d → d ∣ b → a ≤ b → nearest a d * d ≤ b
nearest-le a b d pos div h =
    let e : d * (b / d) ≡ b = mul-div_cancel' d div in
    elim (nearest_cases a d) [
      | inl (n, _) ↦ rw n (omega (arith, mul-div-le a d))
      | inr (n, above) ↦ elim (dec_lt (a / d) (b / d)) [
        | yes p ↦ rw n (omega (arith, mul-le-mul_right d p))
        | no p ↦
            let q : b / d ≤ a / d = omega arith in
            absurd (omega (arith, div-add-mod a d, mul-le-mul_left d q))
      ]
    ]

-- Rounding never passes a representable number.
pub round_ratio-le : (a b : ℕ) → IsRepresentable b → a ≤ b → round_ratio a 1 ≤ b
round_ratio-le a b rep h =
    rw (round_ratio_lem, one-mul)
      (nearest-le a b (spacing a 1) (spacing_pos a 1)
        (dvd_trans _ (rw (spacing_lem a 1, spacing_lem b 1) (ulp-dvd-ulp max_doublings a b 1 1 h))
          rep)
        h)

-- A representable number stays as it is.
pub round_ratio_exact : (a : ℕ) → IsRepresentable a → round_ratio a 1 ≡ a
round_ratio_exact a rep =
    let u = spacing a 1 in
    let e : a / u * u ≡ a = mul_comm (a / u) u ∙ mul-div_cancel' u rep in
    rw (round_ratio_lem, one-mul)
      (ap (λ t. nearest t u * u) (sym e)
        ∙ ap (λ t. t * u) (nearest_exact (a / u) u (spacing_pos a 1))
        ∙ e)

-- A number below 2 ^ 277 fills at most 24 bits when it is rounded.
rounded-le :
    (num den : ℕ) → 0 < den → num < den * 2 ^ 277 → nearest num (den * spacing num den) ≤ 2 ^ 24
rounded-le num den pos h =
    let d = den * spacing num den in
    let fits : num < den * ulp max_doublings num den 1 * 2 ^ 24 =
      ulp_fits max_doublings num den 1 (omega arith) in
    let fits' : num < d * 2 ^ 24 = rw spacing_lem fits in
    let small : num / d < 2 ^ 24 = elim (dec_lt (num / d) (2 ^ 24)) [
      | yes p ↦ p
      | no p ↦
          let q : 2 ^ 24 ≤ num / d = omega arith in
          absurd (omega (arith, mul-div-le num d, mul-le-mul_left d q))
    ] in
    elim (nearest_cases num d) [ inl (n, _) ↦ rw n (omega arith) | inr (n, _) ↦ rw n (omega arith) ]

-- So is every multiple of a spacing with 24 bits.
pub multiple-IsRepresentable : (num den m : ℕ) → m ≤ 2 ^ 24 → IsRepresentable (m * spacing num den)
multiple-IsRepresentable num den m bound =
    let u = spacing num den in
    elim (dec_lt m (2 ^ 24)) [
      | yes p ↦
          let below : m * u < u * 2 ^ 24 =
            omega (arith, mul-le-mul_right u p, spacing_pos num den) in
          dvd_trans _
            (rw (spacing_lem (m * u) 1, spacing_lem num den)
              (ulp-dvd_of_lt max_doublings num den _ 1 (rw (spacing_lem num den) at below)))
            (dvd-mul_left u m)
      | no p ↦
          let full : m ≡ 2 ^ 24 = omega arith in
          let below : m * u < u * 2 ^ 25 = rw full (omega (arith, spacing_pos num den)) in
          let even : 2 ^ 23 * (2 * u) ≡ m * u = rw full (omega arith) in
          dvd_trans _
            (rw (spacing_lem (m * u) 1, spacing_lem num den)
              (ulp-dvd_double max_doublings num den _ 1 (rw (spacing_lem num den) at below)))
            (subst (λ t. 2 * u ∣ t) even (dvd-mul_left (2 * u) (2 ^ 23)))
    ]

-- What rounding gives is representable.
pub round_ratio-IsRepresentable :
    (num den : ℕ) → 0 < den → num < den * 2 ^ 277 → IsRepresentable (round_ratio num den)
round_ratio-IsRepresentable num den pos h = rw round_ratio_lem (
    multiple-IsRepresentable num den (nearest num (den * spacing num den))
      (rounded-le num den pos h))
