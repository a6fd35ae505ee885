-- ===== src/CampagnesManager/Draw.antt =====
-- `CampagnesManager::RandomSelectCampagne`. The number that `uniform_int_distribution<int>(0, 100)`
-- draws is an argument, and so are the budgets that the code reads from the selected campaigns. The
-- result is a position in them; `none` is a conversion to `int` that C++ leaves undefined.
pub mod Defined
pub mod Intervals
pub mod Weights
pub mod Shares
use tabmo_codding_challenge.Common.Int.{ℤ, pos}
use tabmo_codding_challenge.Common.{
  ℕ, suc, false, ◌&&◌, Option, none, some, List, [], ◌∷◌, if◌then◌else◌,
}
use tabmo_codding_challenge.Float.{Float, fin, le, ge, add, mul, div, from_int, to_int}

-- `lSommeBudget += pCampagne->GetBudget()` for each campaign: the sum is a `float`, cut off to `int`.
unfoldable pub sum_budgets : ℤ → List Float → Option ℤ
unfolding add from_int to_int
sum_budgets sum [] = some sum
sum_budgets sum (b ∷ bs) = elim (to_int (add (from_int sum) b)) [
  | none ↦ none
  | some sum' ↦ sum_budgets sum' bs
]

-- `(lVecteurPonderation[i] / (float)lSommeBudget) * 100`.
unfoldable pub weight : ℤ → Float → Float
unfolding div mul from_int
weight sum b = mul (div b (from_int sum)) (from_int (pos 100))

-- The loop, from position `i` with `lProbaBrecedente` at `previous`. Without a hit it leaves 0.
unfoldable pub pick : Float → ℤ → ℕ → Float → List Float → ℕ
unfolding weight add
pick random sum i previous [] = 0
pick random sum i previous (b ∷ bs) =
    let next = add previous (weight sum b) in
    let rest = pick random sum (suc i) next bs in
    if ge random previous && le random next then i else rest

unfoldable pub random_select : ℕ → List Float → Option ℕ
unfolding sum_budgets pick
random_select drawn (b ∷ []) = some 0
random_select drawn bs = elim (sum_budgets (pos 0) bs) [
  | none ↦ none
  | some sum ↦ some (pick (from_int (pos drawn)) sum 0 (fin false 0) bs)
]
