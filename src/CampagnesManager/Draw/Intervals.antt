-- ===== src/CampagnesManager/Draw/Intervals.antt =====
-- Which campaign a draw selects: the intervals that the loop of `RandomSelectCampagne` runs through.
use tabmo_codding_challenge.Common.Int.{ℤ, pos}
use tabmo_codding_challenge.Common.{
  ℕ, zero, suc, ◌+◌, ◌≤◌, ◌≡◌, ◌⊎◌, inl, inr, refl, ap, ◌∙◌, Bool, true, false, ◌&&◌, some, List,
  [], ◌∷◌, arith, length, All, Bool-cases,
}
use tabmo_codding_challenge.Float.{Float, fin, le, ge, add, from_int}
use tabmo_codding_challenge.CampagnesManager.Draw.{sum_budgets, weight, pick, random_select}

-- The intervals of the budgets, one behind the other from `previous` on, as wide as the weights.
abbrev pub intervals : ℤ → Float → List Float → List (Float × Float)
intervals sum previous [] = []
intervals sum previous (b ∷ bs) =
    let next = add previous (weight sum b) in (previous, next) ∷ intervals sum next bs

abbrev pub is_in : Float → Float × Float → Bool
is_in x (low, high) = ge x low && le x high

-- Position `k` is the first whose interval the number is in.
abbrev pub IsFirst : Float → List (Float × Float) → ℕ → Type 0
IsFirst x [] k = ⊥
IsFirst x (i ∷ is) zero = is_in x i ≡ true
IsFirst x (i ∷ is) (suc k) = (is_in x i ≡ false) × IsFirst x is k

pick_cases :
    (x : Float) (sum : ℤ) (i : ℕ) (previous : Float) (bs : List Float)
    → ((k : ℕ) × IsFirst x (intervals sum previous bs) k × (pick x sum i previous bs ≡ i + k))
      ⊎ (All (λ interval. is_in x interval ≡ false) (intervals sum previous bs)
          × (pick x sum i previous bs ≡ 0))
unfolding pick
pick_cases x sum i previous [] = inr (tt, refl)
pick_cases x sum i previous (b ∷ bs) =
    elim (Bool-cases (is_in x (previous, add previous (weight sum b)))) [
      | inl hit ↦ inl (0, hit, rw (hit, pick) (omega arith))
      | inr miss ↦ elim (pick_cases x sum (suc i) (add previous (weight sum b)) bs) [
        | inl (k, first, e) ↦ inl (suc k, (miss, first), rw (miss, pick) (omega (arith, e)))
        | inr (none_hit, e) ↦ inr ((miss, none_hit), rw (miss, pick) e)
      ]
    ]

-- Of two campaigns or more whose budgets have a sum in the range of `int`: the draw selects the first one
-- whose interval the number is in, where the intervals lie one behind the other from 0 on, as wide
-- as the weights of the budgets; and the first campaign if the number is in none.
pub random_select-IsFirst :
    (drawn : ℕ) (bs : List Float) (sum : ℤ)
    → 2 ≤ length bs
    → sum_budgets (pos 0) bs ≡ some sum
    → let x = from_int (pos drawn) in
      let is = intervals sum (fin false 0) bs in
      ((k : ℕ) × IsFirst x is k × (random_select drawn bs ≡ some k))
      ⊎ (All (λ interval. is_in x interval ≡ false) is × (random_select drawn bs ≡ some 0))
unfolding random_select
random_select-IsFirst drawn [] sum many e = absurd (omega arith)
random_select-IsFirst drawn (b ∷ []) sum many e = absurd (omega arith)
random_select-IsFirst drawn (a ∷ b ∷ bs) sum many e =
    elim (pick_cases (from_int (pos drawn)) sum 0 (fin false 0) (a ∷ b ∷ bs)) [
      | inl (k, first, h) ↦ inl (k, first, rw (e, random_select) (ap some (h ∙ omega arith)))
      | inr (none_hit, h) ↦ inr (none_hit, rw (e, random_select) (ap some h))
    ]
