-- ===== src/Examples/Drawing.antt =====
-- The theorems on the draw, at two campaigns with the budgets 100 and 50.
use tabmo_codding_challenge.Common.Int.{pos}
use tabmo_codding_challenge.Common.{
  ℕ, ◌*◌, ◌<◌, ◌≡◌, ◌⊎◌, refl, false, some, List, [], ◌∷◌, arith, All,
}
use tabmo_codding_challenge.Float.{Float, fin, one, from_int, to_int, add}
use tabmo_codding_challenge.Float.Round.{round_ratio}
use tabmo_codding_challenge.CampagnesManager.Draw.{random_select, sum_budgets}
use tabmo_codding_challenge.CampagnesManager.Draw.Defined.{random_select_defined}
use tabmo_codding_challenge.CampagnesManager.Draw.Intervals.{
  intervals, is_in, IsFirst, random_select-IsFirst,
}
use tabmo_codding_challenge.CampagnesManager.Draw.Shares.{
  IsShare, IsBeyond, floats, random_select-IsShare,
}

random_select_defined_example :
    (i : ℕ) × (random_select 42 (fin false (100 * one) ∷ fin false (50 * one) ∷ []) ≡ some i)
    × (i < 2)
random_select_defined_example =
    random_select_defined 42 (fin false (100 * one) ∷ fin false (50 * one) ∷ []) (λ e. cc)
      ((100 * one, refl, omega arith), ((50 * one, refl, omega arith), tt)) (omega arith)

abbrev two_budgets : List Float
two_budgets = fin false (100 * one) ∷ fin false (50 * one) ∷ []

two_summed : sum_budgets (pos 0) two_budgets ≡ some (pos 150)
unfolding sum_budgets add from_int to_int round_ratio
two_summed = refl

random_select-IsFirst_example :
    let is = intervals (pos 150) (fin false 0) two_budgets in
    ((k : ℕ) × IsFirst (from_int (pos 42)) is k × (random_select 42 two_budgets ≡ some k))
    ⊎ (All (λ interval. is_in (from_int (pos 42)) interval ≡ false) is
        × (random_select 42 two_budgets ≡ some 0))
random_select-IsFirst_example =
    random_select-IsFirst 42 two_budgets (pos 150) (omega arith) two_summed

abbrev two_amounts : List ℕ
two_amounts = (100 * one) ∷ (50 * one) ∷ []

random_select-IsShare_example :
    (k : ℕ) × (random_select 42 (floats two_amounts) ≡ some k)
    × (IsShare 150 (42 * one) 0 0 two_amounts k
        ⊎ ((k ≡ 0) × IsBeyond 150 (42 * one) 0 0 two_amounts))
random_select-IsShare_example =
    random_select-IsShare 42 150 two_amounts (omega arith) (omega arith) (omega arith)
      (omega arith, (omega arith, tt)) two_summed (omega arith) (omega arith)
