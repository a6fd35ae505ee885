-- ===== src/Campagne/Budget.antt =====
-- What `DecrementeBudget` of src/Campagne.cpp does to the budget, its rounding included.
use native.Mathlib.Nat.{dvd-zero}
use native.Mathlib.Decide.{dec_lt}
use tabmo_codding_challenge.Common.{
  ℕ, zero, suc, ◌+◌, ◌-◌, ◌*◌, ◌^◌, ◌≤◌, ◌<◌, ◌≡◌, ◌⊎◌, inl, inr, refl, leb→le, sym, ◌∙◌, ap, true,
  false, arith, leb, Bool-cases, if◌then◌else◌,
}
use tabmo_codding_challenge.Float.{Float, nan, inf, fin, le, ge, sub}
use tabmo_codding_challenge.Float.Round.{round_ratio, spacing}
use tabmo_codding_challenge.Float.Round.Error.{round_ratio_error, spacing_lem, ulp_upper}
use tabmo_codding_challenge.Float.Round.Exact.{
  IsRepresentable, round_ratio-le, round_ratio-IsRepresentable, round_ratio_exact,
}
use tabmo_codding_challenge.Campagne.{Campagne, decremente_budget, budget_max, price_min, price_max}

-- Half the distance of the floats below 1024, 2 ^ -15.
abbrev pub rounding : ℕ
rounding = 2 ^ 134

-- A campaign with a budget and a price that are numbers: what the constructor leaves of a campaign
-- without NaN, and what purchases keep.
pub record Holds (c : Campagne) (budget price : ℕ) : Type 0 where
  pub is_budget : c.budget ≡ fin false budget
  pub is_price : c.bid_price ≡ fin false price
  pub is_float : IsRepresentable budget
  pub bounded : budget ≤ budget_max
  pub priced : price_min ≤ price
  pub cheap : price ≤ price_max

-- The budget that a purchase leaves.
abbrev pub remaining : ℕ → ℕ → ℕ
remaining budget price = round_ratio (budget - price) 1

remaining_zero : remaining 0 0 ≡ 0
remaining_zero = round_ratio_exact 0 (dvd-zero _)

sub_fin : (b p : ℕ) → p ≤ b → sub (fin false b) (fin false p) ≡ fin false (remaining b p)
unfolding sub
sub_fin b p h = elim (dec_lt p b) [
  | yes less ↦ ground arith
  | no not_less ↦
      let same : b ≡ p = omega arith in
      let nothing : b - p ≡ 0 = omega arith in rw (nothing, remaining_zero) (ground arith)
]

-- It is not more than before.
remaining-le : (b p : ℕ) → IsRepresentable b → remaining b p ≤ b
remaining-le b p rep = round_ratio-le (b - p) b rep (omega arith)

-- It is the exact difference up to a rounding.
pub remaining_error :
    (b p : ℕ)
    → b ≤ budget_max
    → p ≤ b
    → (remaining b p + p ≤ b + rounding) × (b ≤ remaining b p + p + rounding)
remaining_error b p h q =
    let small : spacing (b - p) 1 ≤ 2 ^ 135 =
      rw spacing_lem (ulp_upper 135 253 (b - p) 1 1 (omega arith)) in
    omega (arith, round_ratio_error (b - p) 1 (omega arith))

-- A price is far more than a rounding, so the budget falls.
remaining-lt : (b p : ℕ) → b ≤ budget_max → price_min ≤ p → p ≤ b → remaining b p < b
remaining-lt b p h q r = omega (arith, remaining_error b p h r)

module _ (c : Campagne) (b p : ℕ) (h : Holds c b p) where
  ge_lem : ge c.budget c.bid_price ≡ leb p b
  unfolding le
  ge_lem = rw (h.is_budget, h.is_price)

  price_off : p ≤ b → sub c.budget c.bid_price ≡ fin false (remaining b p)
  price_off q = rw (h.is_budget, h.is_price) (sub_fin b p q)

  -- A purchase succeeds exactly when the budget covers the price. It takes the price off the budget
  -- and changes nothing else; a purchase that fails changes nothing.
  pub decremente_budget_lem :
      ((p ≤ b) × (decremente_budget c ≡ (record c { budget = fin false (remaining b p) }, true)))
      ⊎ ((b < p) × (decremente_budget c ≡ (c, false)))
  unfolding decremente_budget
  decremente_budget_lem = elim (Bool-cases (leb p b)) [
    | inl enough ↦ inl (
      ground arith,
      rw (ge_lem, enough) (ap (λ x. (record c { budget = x }, true)) (price_off (ground arith))),
    )
    | inr short ↦ inr (ground arith, rw (ge_lem, short))
  ]

  -- What is left is again a budget of the kind.
  pub remaining-Holds :
      p ≤ b → Holds (record c { budget = fin false (remaining b p) }) (remaining b p) p
  remaining-Holds q = record {
    is_budget = refl;
    is_price = h.is_price;
    is_float = round_ratio-IsRepresentable (b - p) 1 (omega arith) (omega (arith, h.bounded));
    bounded = omega (arith, remaining-le b p h.is_float, h.bounded);
    priced = h.priced;
    cheap = h.cheap;
  }

  -- For a campaign that holds numbers: if the budget covers the price, a purchase returns true and
  -- leaves a smaller budget, lower by the price up to a rounding of 2 ^ -15; it changes nothing else,
  -- and the campaign holds numbers again. If not, the campaign stays as it is and the result is false.
  pub decremente_budget_pays :
      ((b' : ℕ) × (decremente_budget c ≡ (record c { budget = fin false b' }, true))
        × (p ≤ b)
        × (b' < b)
        × (b' + p ≤ b + rounding)
        × (b ≤ b' + p + rounding)
        × Holds (record c { budget = fin false b' }) b' p)
      ⊎ ((b < p) × (decremente_budget c ≡ (c, false)))
  decremente_budget_pays = elim decremente_budget_lem [
    | inl (q, e) ↦
        let (low, high) = remaining_error b p h.bounded q in
        inl
          (remaining b p, e, q, remaining-lt b p h.bounded h.priced q, low, high, remaining-Holds q)
    | inr (short, e) ↦ inr (short, e)
  ]

-- A campaign that buys as long as it can, `fuel` times at most: the number of purchases, and the
-- campaign after them.
unfoldable pub spend : ℕ → Campagne → ℕ × Campagne
spend zero c = (0, c)
spend (suc fuel) c =
    let rest = spend fuel (decremente_budget c).0 in
    if (decremente_budget c).1 then (rest.0 + 1, rest.1) else (0, c)

-- For a campaign that holds numbers: in a row of purchases, however many are tried, the prices paid
-- are within the first budget, up to one rounding of 2 ^ -15 for each purchase.
spend-le :
    (fuel : ℕ) (c : Campagne) (b p : ℕ)
    → Holds c b p
    → (spend fuel c).0 * p ≤ b + (spend fuel c).0 * rounding
unfolding spend
spend-le zero c b p h = omega arith
spend-le (suc fuel) c b p h = elim (decremente_budget_pays c b p h) [
  | inl (b', e, q, _, low, _, h') ↦
      rw e (omega (arith, spend-le fuel (record c { budget = fin false b' }) b' p h'))
  | inr (short, e) ↦ rw e (omega arith)
]

spend_ends :
    (fuel : ℕ) (c : Campagne) (b p : ℕ)
    → Holds c b p
    → b < fuel * (price_min - rounding)
    → (decremente_budget (spend fuel c).1).1 ≡ false
unfolding spend
spend_ends zero c b p h short = absurd (omega arith)
spend_ends (suc fuel) c b p h enough = elim (decremente_budget_pays c b p h) [
  | inl (b', e, q, _, low, _, h') ↦
      rw e (spend_ends fuel (record c { budget = fin false b' }) b' p h' (omega (arith, h.priced)))
  | inr (short, e) ↦ rw (e, e)
]

-- A campaign that holds numbers cannot buy for ever: when it has bought as long as it can, at most
-- 100307 times, a further purchase fails.
pub spend_terminates :
    (c : Campagne) (b p : ℕ) → Holds c b p → (decremente_budget (spend 100_307 c).1).1 ≡ false
spend_terminates c b p h = spend_ends 100_307 c b p h (omega (arith, h.bounded))

-- What every campaign of the list is: it has NaN for its budget or its price, or it holds numbers.
abbrev pub IsSeller : Campagne → Type 0
IsSeller c = ((c.budget ≡ nan) ⊎ (c.bid_price ≡ nan)) ⊎ ((b : ℕ) × (p : ℕ) × Holds c b p)

ge-nan : (x : Float) → ¬ (ge nan x ≡ true)
unfolding le
ge-nan nan = ground arith
ge-nan (inf s) = ground arith
ge-nan (fin s m) = ground arith

ge-nan_right : (x : Float) → ¬ (ge x nan ≡ true)
unfolding le
ge-nan_right x = ground arith

-- A campaign that can pay holds numbers, and its budget covers its price.
pub solvent-Holds :
    (c : Campagne)
    → IsSeller c
    → ge c.budget c.bid_price ≡ true
    → (b : ℕ) × (p : ℕ) × Holds c b p × (p ≤ b)
solvent-Holds c (inl (inl e)) h = absurd (ge-nan c.bid_price (rw e at h))
solvent-Holds c (inl (inr e)) h = absurd (ge-nan_right c.budget (rw e at h))
solvent-Holds c (inr (b, p, holds)) h = (b, p, holds, leb→le p b (sym (ge_lem c b p holds) ∙ h))
