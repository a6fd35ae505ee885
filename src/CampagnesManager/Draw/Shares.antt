-- ===== src/CampagnesManager/Draw/Shares.antt =====
-- A draw of `RandomSelectCampagne` selects by the shares of the budgets.
use native.Mathlib.Nat.{mul-le-mul_left}
use mathlib.Core.Option.{some-injective}
use tabmo_codding_challenge.Common.Int.{ℤ, pos, abs}
use tabmo_codding_challenge.Common.{
  ℕ, zero, suc, ◌+◌, ◌*◌, ◌^◌, ◌≤◌, ◌<◌, ◌≡◌, ◌⊎◌, inl, inr, refl, sym, ap, ◌∙◌, false, true, some,
  List, [], ◌∷◌, arith, length, map, All, leb, leb→le, ◌&&◌, Bool-cases, if◌then◌else◌, sum_of,
}
use tabmo_codding_challenge.Float.{Float, fin, one, le, from_int}
use tabmo_codding_challenge.Campagne.{budget_max}
use tabmo_codding_challenge.CampagnesManager.Draw.{sum_budgets, pick, random_select}
use tabmo_codding_challenge.CampagnesManager.Draw.Defined.{from_int_exact, add_budget, sum_step}
use tabmo_codding_challenge.CampagnesManager.Draw.Weights.{
  tolerance, IsNear, weight_lem, next, next-IsNear, add-percents,
}

-- The budgets as `float`, and the sum of the first `k`.
abbrev pub floats : List ℕ → List Float
floats ms = map (λ m. fin false m) ms

abbrev pub before : ℕ → List ℕ → ℕ
before zero ms = 0
before (suc k) [] = 0
before (suc k) (m ∷ ms) = m + before k ms

abbrev pub total : List ℕ → ℕ
total ms = sum_of (λ m. m) ms

-- The number `d`, in units of percents, is in the share of budget `k` of those that follow `i` others with the
-- sum `p`, up to the tolerance for each of them; or beyond all shares.
abbrev pub IsShare : ℕ → ℕ → ℕ → ℕ → List ℕ → ℕ → Type 0
IsShare s d i p ms k =
    (k < length ms)
    × (100 * (p + before k ms) ≤ s * d + (i + k) * tolerance * s)
    × (s * d ≤ 100 * (p + before (suc k) ms) + (i + k + 1) * tolerance * s)

abbrev pub IsBeyond : ℕ → ℕ → ℕ → ℕ → List ℕ → Type 0
IsBeyond s d i p ms = 100 * (p + total ms) ≤ s * d + (i + length ms) * tolerance * s

module _ (s d : ℕ) (some_sum : 0 < s) (few : s ≤ 2 ^ 24) where
  abbrev Picks : ℕ → ℕ → List ℕ → ℕ → Type 0
  Picks i p ms r = ((k : ℕ) × (r ≡ i + k) × IsShare s d i p ms k) ⊎ ((r ≡ 0) × IsBeyond s d i p ms)

  pick_step :
      (i p x m : ℕ) (ms : List ℕ) (part : m ≤ 2 * s * one) (many : i ≤ 16_777)
      (all : p + m ≤ 2 * s * one) (near : IsNear (i * tolerance * s) (s * x) (100 * p))
      → let x' = next s m some_sum part i p x many all near in
        pick (fin false d) (pos s) i (fin false x) (floats (m ∷ ms)) ≡ (
          if leb x d && leb d x'
          then i
          else pick (fin false d) (pos s) (suc i) (fin false x') (floats ms))
  unfolding pick le
  pick_step i p x m ms part many all near =
      rw (weight_lem s m some_sum part few, add-percents s m some_sum part i p x many all near) refl

  -- What holds of the budgets behind the first.
  later : (i p m : ℕ) (ms : List ℕ) (r : ℕ) → Picks (suc i) (p + m) ms r → Picks i p (m ∷ ms) r
  later i p m ms r (inl (k, e, (there, low, high))) =
      inl (suc k, omega (arith, e), (omega arith, omega (arith, low), omega (arith, high)))
  later i p m ms r (inr (e, beyond)) = inr (e, omega (arith, beyond))

  pick-Picks :
      (ms : List ℕ) (i p x : ℕ)
      → i + length ms ≤ 16_777
      → p + total ms ≤ 2 * s * one
      → IsNear (i * tolerance * s) (s * x) (100 * p)
      → x ≤ d
      → Picks i p ms (pick (fin false d) (pos s) i (fin false x) (floats ms))
  pick-Picks [] i p x many all near reached =
      inr (unfold pick in refl, omega (arith, near, mul-le-mul_left s reached))
  pick-Picks (m ∷ ms) i p x many all near reached =
      let part : m ≤ 2 * s * one = omega arith in
      let many' : i ≤ 16_777 = omega arith in
      let all' : p + m ≤ 2 * s * one = omega arith in
      let x' = next s m some_sum part i p x many' all' near in
      let near' = next-IsNear s m some_sum part i p x many' all' near in
      let hit : leb x d ≡ true = ground arith in
      elim (Bool-cases (leb d x')) [
        | inl inside ↦
            rw (pick_step i p x m ms part many' all' near, hit, inside)
              (inl (
                0,
                omega arith,
                (
                  omega arith,
                  omega (arith, near, mul-le-mul_left s reached),
                  omega (arith, near', mul-le-mul_left s (leb→le d x' inside)),
                ),
              ))
        | inr outside ↦
            let passed : x' ≤ d = ground arith in
            rw (pick_step i p x m ms part many' all' near, hit, outside)
              (later i p m ms _
                (pick-Picks ms (suc i) (p + m) x' (omega arith) (omega arith) near' passed))
      ]

random_select_many :
    (drawn : ℕ) (a b : Float) (bs : List Float) (sum : ℤ)
    → sum_budgets (pos 0) (a ∷ b ∷ bs) ≡ some sum
    → random_select drawn (a ∷ b ∷ bs)
      ≡ some (pick (from_int (pos drawn)) sum 0 (fin false 0) (a ∷ b ∷ bs))
unfolding random_select
random_select_many drawn a b bs sum e = rw (e, random_select) refl

sum_bound :
    (ms : List ℕ) (start s : ℕ)
    → All (λ m. m ≤ budget_max) ms
    → start + 1000 * length ms ≤ 2 ^ 24
    → sum_budgets (pos start) (floats ms) ≡ some (pos s)
    → s ≤ 2 ^ 24
unfolding sum_budgets
sum_bound [] start s bounds few e =
    let same : start ≡ s = ap abs (some-injective _ _ e) in omega arith
sum_bound (m ∷ ms) start s (bound, bounds) few e =
    let (start', added, more) = add_budget start m (omega arith) bound in
    sum_bound ms start' s bounds (omega arith)
      (sym (sum_step start start' (fin false m) (floats ms) added) ∙ e)

-- Of 2 to 16777 campaigns whose budgets are from 0 to 1000, and whose sum as the code computes it, cut off to
-- an `int` at each addition, is positive and at least half of the exact sum: a number d from 0 to 100
-- selects a campaign k such that d lies between the exact percentages of that computed sum which the
-- budgets before k and those up to k add up to, except for a tolerance of 2 ^ -15 percent for each
-- of them; or it selects the first campaign, where d is beyond the percentages of all budgets, up to
-- that tolerance.
pub random_select-IsShare :
    (drawn s : ℕ) (ms : List ℕ)
    → drawn ≤ 100
    → 2 ≤ length ms
    → length ms ≤ 16_777
    → All (λ m. m ≤ budget_max) ms
    → sum_budgets (pos 0) (floats ms) ≡ some (pos s)
    → 0 < s
    → total ms ≤ 2 * s * one
    → (k : ℕ) × (random_select drawn (floats ms) ≡ some k)
      × (IsShare s (drawn * one) 0 0 ms k ⊎ ((k ≡ 0) × IsBeyond s (drawn * one) 0 0 ms))
random_select-IsShare drawn s [] low many few bounds e some_sum half = absurd (omega arith)
random_select-IsShare drawn s (m ∷ []) low many few bounds e some_sum half = absurd (omega arith)
random_select-IsShare drawn s (a ∷ b ∷ ms) low many few bounds e some_sum half =
    let small = sum_bound (a ∷ b ∷ ms) 0 s bounds (omega arith) e in
    let selects = random_select_many drawn (fin false a) (fin false b) (floats ms) (pos s) e in
    let x = from_int_exact drawn (omega arith) in
    elim (pick-Picks s (drawn * one) some_sum small (a ∷ b ∷ ms) 0 0 0 (omega arith) (omega arith)
      (omega arith, omega arith) (omega arith)) [
        | inl (k, hit, share) ↦ (
          k,
          selects
              ∙ ap some (
                  ap (λ t. pick t (pos s) 0 (fin false 0) (floats (a ∷ b ∷ ms))) x
                  ∙ hit
                  ∙ omega arith),
          inl share,
        )
        | inr (none_hit, beyond) ↦ (
          0,
          selects
              ∙ ap some
                  (ap (λ t. pick t (pos s) 0 (fin false 0) (floats (a ∷ b ∷ ms))) x ∙ none_hit),
          inr (refl, beyond),
        )
      ]
