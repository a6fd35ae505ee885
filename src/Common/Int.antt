-- ===== src/Common/Int.antt =====
-- Signed integers over the native numbers, under the library's name. An `int` of the program is
-- such a number; what bounds it is said where it matters.
use Prim.Native.Nat.{ℕ, zero, suc, ◌<◌, ◌^◌}
use mathlib.Core.Bool.{Bool, true, false}

-- `negsuc n` is -(n + 1).
pub data ℤ : Type 0 where
  pos : ℕ → ℤ
  negsuc : ℕ → ℤ

abbrev pub is_negative : ℤ → Bool
is_negative (pos n) = false
is_negative (negsuc n) = true

abbrev pub abs : ℤ → ℕ
abs (pos n) = n
abs (negsuc n) = suc n

-- The integer of a sign and a magnitude.
abbrev pub of_sign : Bool → ℕ → ℤ
of_sign false n = pos n
of_sign true zero = pos zero
of_sign true (suc n) = negsuc n

-- The numbers of the type `int`.
abbrev pub IsInt : ℤ → Type 0
IsInt (pos n) = n < 2 ^ 31
IsInt (negsuc n) = n < 2 ^ 31
