-- ===== src/Float.antt =====
-- The C++ type `float` (IEEE 754 binary32, round to nearest even), with the operations that the
-- program makes of it. A finite value is its sign and its magnitude in units of 2 ^ -149.
pub mod Round
pub mod Stof
pub mod Print
pub mod Value
pub mod Closed
mod Tests
use tabmo_codding_challenge.Common.Int.{ℤ, is_negative, abs, of_sign}
use tabmo_codding_challenge.Common.{
  ℕ, ◌+◌, ◌-◌, ◌*◌, ◌/◌, ◌^◌, Bool, true, false, not, ◌&&◌, Option, some, none, ltb, leb, ◌==◌,
  if◌then◌else◌,
}
use Round.{round_ratio}

pub data Float : Type 0 where
  nan : Float
  inf : Bool → Float
  fin : Bool → ℕ → Float

-- The number 1 in units.
abbrev pub one : ℕ
one = 2 ^ 149

-- Magnitudes from here on are infinite.
abbrev pub limit : ℕ
limit = 2 ^ 277

unfoldable pub finish : Bool → ℕ → Float
finish sign mag = if leb limit mag then inf sign else fin sign mag

abbrev pub xor : Bool → Bool → Bool
xor false t = t
xor true t = not t

-- `(float)n`.
unfoldable pub from_int : ℤ → Float
unfolding finish
from_int n = finish (is_negative n) (round_ratio (abs n * one) 1)

-- `(int)x`: the fraction is cut off. It is undefined where the result is no `int`.
unfoldable pub to_int : Float → Option ℤ
to_int (fin sign mag) =
    let whole = mag / one in if ltb whole (2 ^ 31) then some (of_sign sign whole) else none
to_int _ = none

-- `<=` on finite values; the zeros are equal.
unfoldable le_fin : Bool → ℕ → Bool → ℕ → Bool
le_fin false m false n = leb m n
le_fin false m true n = m == 0 && n == 0
le_fin true m false n = true
le_fin true m true n = leb n m

-- `<=`, false on NaN. The other comparisons are made of it.
unfoldable pub le : Float → Float → Bool
unfolding le_fin
le nan y = false
le (inf s) nan = false
le (inf true) (inf t) = true
le (inf true) (fin t n) = true
le (inf false) (inf t) = not t
le (inf false) (fin t n) = false
le (fin s m) nan = false
le (fin s m) (inf t) = not t
le (fin s m) (fin t n) = le_fin s m t n

abbrev pub ge : Float → Float → Bool
ge x y = le y x

abbrev pub lt : Float → Float → Bool
lt x y = le x y && not (le y x)

abbrev pub gt : Float → Float → Bool
gt x y = lt y x

abbrev pub eq : Float → Float → Bool
eq x y = le x y && le y x

unfoldable pub negate : Float → Float
negate nan = nan
negate (inf s) = inf (not s)
negate (fin s m) = fin (not s) m

-- Sum of finite values of equal signs, and of different signs.
unfoldable pub add_fin : Bool → ℕ → Bool → ℕ → Float
unfolding finish
add_fin s m t n =
    if xor s t
    then if m == n
      then fin false 0
      else if ltb n m
      then fin s (round_ratio (m - n) 1)
      else fin t (round_ratio (n - m) 1)
    else finish s (round_ratio (m + n) 1)

unfoldable pub add : Float → Float → Float
unfolding add_fin
add nan y = nan
add (inf s) nan = nan
add (inf s) (inf t) = if xor s t then nan else inf s
add (inf s) (fin t n) = inf s
add (fin s m) nan = nan
add (fin s m) (inf t) = inf t
add (fin s m) (fin t n) = add_fin s m t n

unfoldable pub sub : Float → Float → Float
unfolding add negate
sub x y = add x (negate y)

unfoldable pub mul : Float → Float → Float
unfolding finish
mul nan y = nan
mul (inf s) nan = nan
mul (inf s) (inf t) = inf (xor s t)
mul (inf s) (fin t n) = if n == 0 then nan else inf (xor s t)
mul (fin s m) nan = nan
mul (fin s m) (inf t) = if m == 0 then nan else inf (xor s t)
mul (fin s m) (fin t n) = finish (xor s t) (round_ratio (m * n) one)

unfoldable pub div : Float → Float → Float
unfolding finish
div nan y = nan
div (inf s) nan = nan
div (inf s) (inf t) = nan
div (inf s) (fin t n) = inf (xor s t)
div (fin s m) nan = nan
div (fin s m) (inf t) = fin (xor s t) 0
div (fin s m) (fin t n) =
    if n == 0
    then if m == 0 then nan else inf (xor s t)
    else finish (xor s t) (round_ratio (m * one) n)
