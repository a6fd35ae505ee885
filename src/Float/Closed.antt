-- ===== src/Float/Closed.antt =====
-- Sums and differences of values of the type `float` are values of that type.
use tabmo_codding_challenge.Common.{
  ℕ, ◌+◌, ◌-◌, ◌≤◌, ◌<◌, inl, inr, Bool, true, false, arith, leb, ltb, ◌==◌, Bool-cases,
  if◌then◌else◌,
}
use tabmo_codding_challenge.Float.{
  Float, nan, inf, fin, limit, xor, finish, add, add_fin, negate, sub,
}
use tabmo_codding_challenge.Float.Round.{round_ratio}
use tabmo_codding_challenge.Float.Round.Exact.{round_ratio-le}
use tabmo_codding_challenge.Float.Value.{IsFloat, round_ratio-IsFloat}
use tabmo_codding_challenge.Float.Stof.Floats.{zero-IsFloat}

finish-IsFloat : (sign : Bool) (num den : ℕ) → 0 < den → IsFloat (finish sign (round_ratio num den))
unfolding finish
finish-IsFloat sign num den positive = elim (Bool-cases (leb limit (round_ratio num den))) [
  | inl big ↦ rw (big, finish) tt
  | inr small ↦ rw (small, finish) (round_ratio-IsFloat sign num den positive (ground arith))
]

IsFloat-if : (b : Bool) (x y : Float) → IsFloat x → IsFloat y → IsFloat (if b then x else y)
IsFloat-if true x y f g = f
IsFloat-if false x y f g = g

-- A difference is no larger than what it is taken from.
less-IsFloat :
    (s : Bool) (m n : ℕ) → IsFloat (fin s m) → n ≤ m → IsFloat (fin s (round_ratio (m - n) 1))
less-IsFloat s m n (rep, bound) h =
    round_ratio-IsFloat s (m - n) 1 (omega arith)
      (omega (arith, round_ratio-le (m - n) m rep (omega arith)))

add_fin-IsFloat :
    (s t : Bool) (m n : ℕ) → IsFloat (fin s m) → IsFloat (fin t n) → IsFloat (add_fin s m t n)
unfolding add_fin
add_fin-IsFloat s t m n f g = elim (Bool-cases (xor s t)) [
  | inr same ↦ rw (same, add_fin) (finish-IsFloat s (m + n) 1 (omega arith))
  | inl differ ↦ elim (Bool-cases (m == n)) [
    | inl e ↦ rw (differ, add_fin) (rw e (zero-IsFloat false))
    | inr ne ↦ elim (Bool-cases (ltb n m)) [
      | inl less ↦ rw (differ, add_fin) (rw (ne, less) (less-IsFloat s m n f (ground arith)))
      | inr more ↦ rw (differ, add_fin) (rw (ne, more) (less-IsFloat t n m g (ground arith)))
    ]
  ]
]

add-IsFloat : (x y : Float) → IsFloat x → IsFloat y → IsFloat (add x y)
unfolding add
add-IsFloat nan y f g = tt
add-IsFloat (inf s) nan f g = tt
add-IsFloat (inf s) (inf t) f g = IsFloat-if (xor s t) nan (inf s) tt tt
add-IsFloat (inf s) (fin t n) f g = tt
add-IsFloat (fin s m) nan f g = tt
add-IsFloat (fin s m) (inf t) f g = tt
add-IsFloat (fin s m) (fin t n) f g = add_fin-IsFloat s t m n f g

negate-IsFloat : (x : Float) → IsFloat x → IsFloat (negate x)
unfolding negate
negate-IsFloat nan f = tt
negate-IsFloat (inf s) f = tt
negate-IsFloat (fin s m) f = f

pub sub-IsFloat : (x y : Float) → IsFloat x → IsFloat y → IsFloat (sub x y)
unfolding sub
sub-IsFloat x y f g = add-IsFloat x (negate y) f (negate-IsFloat y g)
