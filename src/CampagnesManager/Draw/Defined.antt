-- ===== src/CampagnesManager/Draw/Defined.antt =====
-- `RandomSelectCampagne` stays inside the range of `int`, and its index inside the vector.
use tabmo_codding_challenge.Common.Int.{ℤ, pos}
use tabmo_codding_challenge.Common.{
  ℕ, suc, ◌+◌, ◌-◌, ◌*◌, ◌/◌, ◌^◌, ◌≤◌, ◌<◌, ◌≡◌, ◌≢◌, ◌⊎◌, inl, refl, subst, false, some, List, [],
  ◌∷◌, arith, length, All,
}
use tabmo_codding_challenge.Float.{Float, fin, one, limit, add, from_int, to_int}
use tabmo_codding_challenge.Float.Round.{round_ratio, spacing}
use tabmo_codding_challenge.Float.Round.Exact.{
  IsRepresentable, multiple-IsRepresentable, round_ratio_exact, round_ratio-le,
}
use tabmo_codding_challenge.Campagne.{budget_max}
use tabmo_codding_challenge.CampagnesManager.Draw.{sum_budgets, weight, pick, random_select}

-- A budget that is a number of the documented range, or what purchases leave of it.
abbrev pub IsBudget : Float → Type 0
IsBudget x = (b : ℕ) × (x ≡ fin false b) × (b ≤ budget_max)

spacing-one : spacing ((2 ^ 24 - 1) * one) 1 ≡ one
unfolding spacing
spacing-one = refl

-- Every whole number up to 2 ^ 24 is a `float`.
pub whole-IsRepresentable : (n : ℕ) → n ≤ 2 ^ 24 → IsRepresentable (n * one)
whole-IsRepresentable n h =
    subst (λ t. IsRepresentable (n * t)) spacing-one
      (multiple-IsRepresentable ((2 ^ 24 - 1) * one) 1 n h)

pub from_int_exact : (n : ℕ) → n ≤ 2 ^ 24 → from_int (pos n) ≡ fin false (n * one)
unfolding from_int
from_int_exact n h = rw (round_ratio_exact (n * one) (whole-IsRepresentable n h)) (ground arith)

-- One addition, and the cut to `int`.
add_lem :
    (m n : ℕ)
    → round_ratio (m + n) 1 < limit
    → add (fin false m) (fin false n) ≡ fin false (round_ratio (m + n) 1)
unfolding add
add_lem m n h = ground arith

to_int_lem : (m : ℕ) → m < 2 ^ 31 * one → to_int (fin false m) ≡ some (pos (m / one))
unfolding to_int
to_int_lem m h = ground arith

pub add_budget :
    (s b : ℕ)
    → s + 1000 ≤ 2 ^ 24
    → b ≤ budget_max
    → (s' : ℕ) × (to_int (add (from_int (pos s)) (fin false b)) ≡ some (pos s')) × (s' ≤ s + 1000)
add_budget s b h k =
    let bound : round_ratio (s * one + b) 1 ≤ (s + 1000) * one =
      round_ratio-le (s * one + b) ((s + 1000) * one) (whole-IsRepresentable (s + 1000) h)
        (omega arith) in
    (
      round_ratio (s * one + b) 1 / one,
      rw (from_int_exact s (omega arith), add_lem (s * one) b (omega arith))
          (to_int_lem _ (omega arith)),
      omega arith,
    )

pub sum_step :
    (s s' : ℕ) (b : Float) (bs : List Float)
    → to_int (add (from_int (pos s)) b) ≡ some (pos s')
    → sum_budgets (pos s) (b ∷ bs) ≡ sum_budgets (pos s') bs
unfolding sum_budgets
sum_step s s' b bs e = rw (e, sum_budgets)

-- The sum stays an `int` for up to 16777 campaigns, where 2 ^ 24 bounds it.
sum_budgets_defined :
    (bs : List Float) (s : ℕ)
    → All IsBudget bs
    → s + 1000 * length bs ≤ 2 ^ 24
    → (sum : ℕ) × (sum_budgets (pos s) bs ≡ some (pos sum))
sum_budgets_defined [] s _ h = (s, unfold sum_budgets in refl)
sum_budgets_defined (x ∷ bs) s ((b, e, k), all) h =
    let (s', step, le') = add_budget s b (omega arith) k in
    let (sum, rest) = sum_budgets_defined bs s' all (omega arith) in
    (sum, rw (sum_step s s' x bs (rw e step)) rest)

-- The loop leaves the index 0 or sets it inside the vector.
pick_bound :
    (bs : List Float) (random : Float) (sum : ℤ) (i : ℕ) (previous : Float)
    → (pick random sum i previous bs ≡ 0)
      ⊎ ((i ≤ pick random sum i previous bs) × (pick random sum i previous bs < i + length bs))
unfolding pick
pick_bound [] random sum i previous = inl refl
pick_bound (b ∷ bs) random sum i previous =
    ground (arith, pick_bound bs random sum (suc i) (add previous (weight sum b)))

-- With at least one and at most 16777 budgets, each a number from 0 to 1000, the function is defined
-- and selects one of them, whatever number is drawn.
pub random_select_defined :
    (drawn : ℕ) (bs : List Float)
    → bs ≢ []
    → All IsBudget bs
    → length bs ≤ 16_777
    → (i : ℕ) × (random_select drawn bs ≡ some i) × (i < length bs)
unfolding random_select
random_select_defined drawn [] h _ _ = absurd (h refl)
random_select_defined drawn (b ∷ []) h _ _ = (0, refl, omega arith)
random_select_defined drawn (b ∷ b' ∷ bs) h all few =
    let (sum, e) = sum_budgets_defined (b ∷ b' ∷ bs) 0 all (omega arith) in
    (
      pick (from_int (pos drawn)) (pos sum) 0 (fin false 0) (b ∷ b' ∷ bs),
      rw (e, random_select),
      omega (arith, pick_bound (b ∷ b' ∷ bs) (from_int (pos drawn)) (pos sum) 0 (fin false 0)),
    )
