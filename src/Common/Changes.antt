-- ===== src/Common/Changes.antt =====
-- A list with one element changed: what is counted in it, and its image under a map.
use Prim.Native.Nat.{ℕ, zero, suc, ◌+◌, ◌≤◌, ◌<◌}
use mathlib.Core.Path.{◌≡◌, refl, ap}
use mathlib.Core.Logic.{◌≢◌, inl, inr}
use tabmo_codding_challenge.Common.Tests.{Bool-cases}
use mathlib.Core.Bool.{Bool, true, false}
use mathlib.Core.List.{List, [], ◌∷◌, map}
use mathlib.Core.Option.{some, some-injective}
use native.Mathlib.Omega.{arith}
use tabmo_codding_challenge.Common.Lists.{get_elem?, set, count_if, All}

-- The number of a truth value.
abbrev pub bit : Bool → ℕ
bit true = 1
bit false = 0

module _ {ℓ} {A : Type ℓ} where
  pub set_same : (xs : List A) (i : ℕ) (x : A) → get_elem? xs i ≡ some x → set xs i x ≡ xs
  set_same [] i x e = refl
  set_same (y ∷ xs) zero x e = rw (some-injective _ _ e) refl
  set_same (y ∷ xs) (suc i) x e = ap (λ t. y ∷ t) (set_same xs i x e)

  -- After a change at one place: the new element, and the others at theirs.
  pub All-set_other :
      {P Q : A → Type 0} (xs : List A) (i : ℕ) (x : A)
      → All P xs
      → Q x
      → ((k : ℕ) (y : A) → k ≢ i → get_elem? xs k ≡ some y → P y → Q y)
      → All Q (set xs i x)
  All-set_other [] i x ps q keep = tt
  All-set_other (y ∷ xs) zero x (p, ps) q keep =
      (q, All_of_All xs ps (λ k z at. keep (suc k) z (omega arith) at))
    where
      All_of_All :
          {P Q : A → Type 0} (xs : List A)
          → All P xs
          → ((k : ℕ) (y : A) → get_elem? xs k ≡ some y → P y → Q y)
          → All Q xs
      All_of_All [] ps keep = tt
      All_of_All (y ∷ xs) (p, ps) keep =
          (keep 0 y refl p, All_of_All xs ps (λ k z at. keep (suc k) z at))
  All-set_other (y ∷ xs) (suc i) x (p, ps) q keep = (
    keep 0 y (omega arith) refl p,
    All-set_other xs i x ps q (λ k z ne at. keep (suc k) z (omega arith) at),
  )

  pub count_if-set :
      (p : A → Bool) (xs : List A) (i : ℕ) (x y : A)
      → get_elem? xs i ≡ some x
      → count_if p (set xs i y) + bit (p x) ≡ count_if p xs + bit (p y)
  count_if-set p [] i x y at = cc
  count_if-set p (z ∷ xs) zero x y at =
      let same : p z ≡ p x = ap p (some-injective _ _ at) in ground arith
  count_if-set p (z ∷ xs) (suc i) x y at = ground (arith, count_if-set p xs i x y at)

  pub count_if-set_same :
      (p : A → Bool) (xs : List A) (i : ℕ) (x y : A)
      → get_elem? xs i ≡ some x
      → p y ≡ p x
      → count_if p (set xs i y) ≡ count_if p xs
  count_if-set_same p xs i x y at e = ground (arith, count_if-set p xs i x y at)

  pub count_if-set_more :
      (p : A → Bool) (xs : List A) (i : ℕ) (x y : A)
      → get_elem? xs i ≡ some x
      → p x ≡ false
      → p y ≡ true
      → count_if p (set xs i y) ≡ suc (count_if p xs)
  count_if-set_more p xs i x y at e f = ground (arith, count_if-set p xs i x y at)

  abbrev pub sum_of : (A → ℕ) → List A → ℕ
  sum_of f [] = 0
  sum_of f (x ∷ xs) = f x + sum_of f xs

  pub sum_of-set :
      (f : A → ℕ) (xs : List A) (i : ℕ) (x y : A)
      → get_elem? xs i ≡ some x
      → sum_of f (set xs i y) + f x ≡ sum_of f xs + f y
  sum_of-set f [] i x y at = cc
  sum_of-set f (z ∷ xs) zero x y at =
      let same : f z ≡ f x = ap f (some-injective _ _ at) in omega arith
  sum_of-set f (z ∷ xs) (suc i) x y at = omega (arith, sum_of-set f xs i x y at)

  pub sum_of-get :
      (f : A → ℕ) (xs : List A) (i : ℕ) (x : A) → get_elem? xs i ≡ some x → f x ≤ sum_of f xs
  sum_of-get f [] i x at = cc
  sum_of-get f (z ∷ xs) zero x at =
      let same : f z ≡ f x = ap f (some-injective _ _ at) in omega arith
  sum_of-get f (z ∷ xs) (suc i) x at = omega (arith, sum_of-get f xs i x at)

  -- A sum of zeros.
  pub sum_of_zero :
      (f : A → ℕ) (xs : List A)
      → ((i : ℕ) (x : A) → get_elem? xs i ≡ some x → f x ≡ 0)
      → sum_of f xs ≡ 0
  sum_of_zero f [] zeros = refl
  sum_of_zero f (x ∷ xs) zeros =
      omega (arith, zeros 0 x refl, sum_of_zero f xs (λ i y at. zeros (suc i) y at))

  -- What is counted is there.
  pub count_if_pos :
      (p : A → Bool) (xs : List A)
      → 0 < count_if p xs
      → (i : ℕ) × (x : A) × (get_elem? xs i ≡ some x) × (p x ≡ true)
  count_if_pos p [] h = absurd (omega arith)
  count_if_pos p (x ∷ xs) h = elim (Bool-cases (p x)) [
    | inl here ↦ (0, x, refl, here)
    | inr not_here ↦ let (i, y, at, q) = count_if_pos p xs (ground arith) in (suc i, y, at, q)
  ]

  pub count_if-pos_of_get :
      (p : A → Bool) (xs : List A) (i : ℕ) (x : A)
      → get_elem? xs i ≡ some x
      → p x ≡ true
      → 0 < count_if p xs
  count_if-pos_of_get p [] i x at h = cc
  count_if-pos_of_get p (z ∷ xs) zero x at h =
      let same : p z ≡ p x = ap p (some-injective _ _ at) in ground arith
  count_if-pos_of_get p (z ∷ xs) (suc i) x at h = ground (arith, count_if-pos_of_get p xs i x at h)

  -- If at most one is counted, two places that are counted are one.
  pub count_if_unique :
      (p : A → Bool) (xs : List A) (i k : ℕ) (x y : A)
      → get_elem? xs i ≡ some x
      → get_elem? xs k ≡ some y
      → p x ≡ true
      → p y ≡ true
      → count_if p xs ≤ 1
      → i ≡ k
  count_if_unique p [] i k x y at at' h h' few = cc
  count_if_unique p (z ∷ xs) zero zero x y at at' h h' few = refl
  count_if_unique p (z ∷ xs) zero (suc k) x y at at' h h' few =
      let same : p z ≡ p x = ap p (some-injective _ _ at) in
      absurd (ground (arith, count_if-pos_of_get p xs k y at' h'))
  count_if_unique p (z ∷ xs) (suc i) zero x y at at' h h' few =
      let same : p z ≡ p y = ap p (some-injective _ _ at') in
      absurd (ground (arith, count_if-pos_of_get p xs i x at h))
  count_if_unique p (z ∷ xs) (suc i) (suc k) x y at at' h h' few =
      ap suc (count_if_unique p xs i k x y at at' h h' (ground arith))

module _ {A B : Type 0} (f : A → B) where
  pub map-set : (xs : List A) (i : ℕ) (x : A) → map f (set xs i x) ≡ set (map f xs) i (f x)
  map-set [] i x = refl
  map-set (y ∷ xs) zero x = refl
  map-set (y ∷ xs) (suc i) x = ap (λ t. f y ∷ t) (map-set xs i x)

  pub get_elem?-map :
      (xs : List A) (i : ℕ) (x : A) → get_elem? xs i ≡ some x → get_elem? (map f xs) i ≡ some (f x)
  get_elem?-map [] i x at = cc
  get_elem?-map (y ∷ xs) zero x at = ap (λ t. some (f t)) (some-injective _ _ at)
  get_elem?-map (y ∷ xs) (suc i) x at = get_elem?-map xs i x at

  pub get_elem?-map-some :
      (xs : List A) (i : ℕ) (y : B)
      → get_elem? (map f xs) i ≡ some y
      → (x : A) × (get_elem? xs i ≡ some x) × (f x ≡ y)
  get_elem?-map-some [] i y at = cc
  get_elem?-map-some (x ∷ xs) zero y at = (x, refl, some-injective _ _ at)
  get_elem?-map-some (x ∷ xs) (suc i) y at = get_elem?-map-some xs i y at
