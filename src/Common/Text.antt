-- ===== src/Common/Text.antt =====
-- `std::string`: a list of bytes.
pub mod Search
use Prim.Native.Nat.{ℕ, ◌+◌}
use Prim.Native.Char.{code}
use Prim.Native.String.{String}
use mathlib.Core.Path.{◌≡◌, refl}
use mathlib.Core.Logic.{◌↔◌}
use mathlib.Core.Bool.{Bool, true, false, ◌&&◌, ◌||◌}
use mathlib.Core.List.{List, [], ◌∷◌}
use native.Mathlib.Omega.{arith}
use tabmo_codding_challenge.Common.Tests.{leb, ◌==◌, if◌then◌else◌}

abbrev pub Bytes : Type 0
Bytes = List ℕ

-- The code points of a literal; these are its bytes when the text is ASCII.
abbrev pub codes : String → Bytes
codes String.[] = []
codes (String.◌∷◌ c s) = code c ∷ codes s

-- `compare(...) == 0`.
infix 50 ◌=s=◌
unfoldable pub ◌=s=◌ : Bytes → Bytes → Bool
[] =s= [] = true
[] =s= (y ∷ ys) = false
(x ∷ xs) =s= [] = false
(x ∷ xs) =s= (y ∷ ys) = x == y && xs =s= ys

pub =s=_iff : (s t : Bytes) → ((s =s= t) ≡ true) ↔ (s ≡ t)
unfolding ◌=s=◌
=s=_iff [] [] = (λ _. refl, λ _. refl)
=s=_iff [] (y ∷ ys) = ground arith
=s=_iff (x ∷ xs) [] = ground arith
=s=_iff (x ∷ xs) (y ∷ ys) = ground (arith, =s=_iff xs ys)

abbrev pub is_empty : Bytes → Bool
is_empty [] = true
is_empty (x ∷ xs) = false

-- `tolower` in the C locale.
unfoldable pub to_lower : ℕ → ℕ
to_lower c = if leb b'A' c && leb c b'Z' then c + 32 else c

unfoldable pub lower : Bytes → Bytes
unfolding to_lower
lower [] = []
lower (c ∷ s) = to_lower c ∷ lower s

pub lower_idem : (s : Bytes) → lower (lower s) ≡ lower s
unfolding lower
lower_idem [] = refl
lower_idem (c ∷ s) = ground (arith, lower_idem s)

unfoldable pub is_prefix : Bytes → Bytes → Bool
is_prefix [] t = true
is_prefix (x ∷ xs) [] = false
is_prefix (x ∷ xs) (y ∷ ys) = x == y && is_prefix xs ys

-- `t.find(s) != string::npos`.
unfoldable pub contains : Bytes → Bytes → Bool
unfolding is_prefix
contains s [] = is_prefix s []
contains s (y ∷ ys) = is_prefix s (y ∷ ys) || contains s ys
