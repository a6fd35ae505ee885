-- ===== src/Float/Print.antt =====
-- Decimal output of a `float` with a fixed number of places (`std::fixed`, `setprecision`,
-- `to_string`): the exact value rounded to the nearest, a tie to the even.
use tabmo_codding_challenge.Common.Text.{Bytes, codes}
use tabmo_codding_challenge.Common.{
  ℕ, suc, zero, ◌+◌, ◌*◌, ◌/◌, ◌%◌, ◌^◌, Bool, true, false, [], ◌∷◌, ◌++◌, ltb, if◌then◌else◌,
}
use tabmo_codding_challenge.Common.Int.{ℤ, is_negative, abs}
use tabmo_codding_challenge.Float.{Float, nan, inf, fin, one}
use tabmo_codding_challenge.Float.Round.{nearest}

-- The decimal digits of a number, in front of `out`. A number has fewer digits than `fuel`, which
-- is larger than the number.
unfoldable pub decimal_from : ℕ → ℕ → Bytes → Bytes
decimal_from zero n out = out
decimal_from (suc fuel) n out =
    let out' = (b'0' + n % 10) ∷ out in
    let more = decimal_from fuel (n / 10) out' in if ltb n 10 then out' else more

unfoldable pub decimal : ℕ → Bytes
unfolding decimal_from
decimal n = decimal_from (suc n) n []

-- The last `places` decimal digits.
unfoldable pub padded : ℕ → ℕ → Bytes → Bytes
padded zero n out = out
padded (suc places) n out = padded places (n / 10) ((b'0' + n % 10) ∷ out)

abbrev sign_text : Bool → Bytes
sign_text true = codes "-"
sign_text false = []

-- The value in units of the last place.
unfoldable pub scaled : ℕ → ℕ → ℕ
unfolding nearest
scaled places mag = nearest (mag * 10 ^ places) one

unfoldable pub print_fixed : ℕ → Float → Bytes
unfolding decimal padded scaled
print_fixed places nan = codes "nan"
print_fixed places (inf s) = sign_text s ++ codes "inf"
print_fixed places (fin s mag) =
    let n = scaled places mag in
    sign_text s ++ (decimal (n / 10 ^ places) ++ (b'.' ∷ padded places n []))

-- `to_string(int)`.
unfoldable pub print_int : ℤ → Bytes
unfolding decimal
print_int n = sign_text (is_negative n) ++ decimal (abs n)
