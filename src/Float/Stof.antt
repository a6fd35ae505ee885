-- ===== src/Float/Stof.antt =====
-- `std::stof`: `strtof` of the C library (C locale) on the text, an error where it reads no number
-- or sets ERANGE. That ERANGE is set on an inexact result below the normal numbers is glibc's
-- choice, which the standard leaves open.
pub mod Floats
pub mod Digits
pub mod Printed
use tabmo_codding_challenge.Common.Result.{Result, ok, err, invalid_argument, out_of_range}
use tabmo_codding_challenge.Common.Text.{Bytes, codes, is_prefix, lower}
use tabmo_codding_challenge.Common.{
  ℕ, suc, ◌+◌, ◌-◌, ◌*◌, ◌%◌, ◌^◌, Bool, true, false, not, ◌&&◌, ◌||◌, [], ◌∷◌, ltb, leb, ◌==◌,
  if◌then◌else◌,
}
use tabmo_codding_challenge.Float.{Float, nan, inf, fin, one, limit}
use tabmo_codding_challenge.Float.Round.{round_ratio}

is_space : ℕ → Bool
is_space c = c == 32 || leb 9 c && leb c 13

skip_spaces : Bytes → Bytes
unfolding is_space
skip_spaces [] = []
skip_spaces (c ∷ s) = if is_space c then skip_spaces s else c ∷ s

-- An optional sign, true for minus.
read_sign : Bytes → Bool × Bytes
read_sign [] = (false, [])
read_sign (c ∷ s) =
    if c == b'-' then (true, s) else if c == b'+' then (false, s) else (false, c ∷ s)

-- The value of a digit, or a number from 16 on.
digit : ℕ → ℕ
digit c =
    if leb b'0' c && leb c b'9'
    then c - b'0'
    else if leb b'a' c && leb c b'f'
    then c - b'a' + 10
    else if leb b'A' c && leb c b'F'
    then c - b'A' + 10
    else 16

-- The digits of a base that the text begins with: their value, their number and the rest.
abbrev pub Digits : Type 0
Digits = ℕ × ℕ × Bytes

pub read_digits : ℕ → ℕ → ℕ → Bytes → Digits
unfolding digit
read_digits base value count [] = (value, count, [])
read_digits base value count (c ∷ s) =
    let more = read_digits base (value * base + digit c) (suc count) s in
    if ltb (digit c) base then more else (value, count, c ∷ s)

-- Digits with an optional point: their value without the point, the digits before and behind it.
abbrev Mantissa : Type 0
Mantissa = ℕ × ℕ × ℕ × Bytes

read_fraction : ℕ → Digits → Mantissa
unfolding read_digits
read_fraction base (value, whole, []) = (value, whole, 0, [])
read_fraction base (value, whole, c ∷ s) =
    let (value', places, rest) = read_digits base value 0 s in
    if c == b'.' then (value', whole, places, rest) else (value, whole, 0, c ∷ s)

read_mantissa : ℕ → Bytes → Mantissa
unfolding read_fraction
read_mantissa base s = read_fraction base (read_digits base 0 0 s)

-- An exponent behind `mark`, as a sign and a magnitude. It counts only if it has a digit.
read_exponent : ℕ → Bytes → Bool × ℕ
unfolding read_sign read_digits
read_exponent mark [] = (false, 0)
read_exponent mark (c ∷ s) =
    let (sign, s') = read_sign s in
    let (value, count, _) = read_digits 10 0 0 s' in
    if (c == mark || c + 32 == mark) && ltb 0 count then (sign, value) else (false, 0)

-- `num / den` units with a sign. Zero and too large or too small numbers as the C library has them.
pub in_range : Bool → ℕ → ℕ → Result Float
in_range sign num den =
    let mag = round_ratio num den in
    if leb limit mag
    then err out_of_range
    else if not (num % den == 0) && ltb (4 * num) (den * (2 ^ 25 - 1))
    then err out_of_range
    else ok (fin sign mag)

scaled : Bool → (radix step : ℕ) → ℕ → ℕ → Bool × ℕ → Result Float
scaled sign radix step value places (true, e) =
    in_range sign (value * one) (step ^ places * radix ^ e)
scaled sign radix step value places (false, e) =
    in_range sign (value * one * radix ^ e) (step ^ places)

pub read_decimal : Bool → Bytes → Result Float
read_decimal sign s =
    let (value, whole, places, rest) = read_mantissa 10 s in
    if whole + places == 0
    then err invalid_argument
    else scaled sign 10 10 value places (read_exponent b'e' rest)

-- `0x` with no digit behind it reads as the number 0.
read_hex : Bool → Bytes → Result Float
read_hex sign s =
    let (value, whole, places, rest) = read_mantissa 16 s in
    if whole + places == 0
    then ok (fin sign 0)
    else scaled sign 2 16 value places (read_exponent b'p' rest)

drop_two : Bytes → Bytes
drop_two (a ∷ b ∷ s) = s
drop_two s = []

read_unsigned : Bool → Bytes → Result Float
read_unsigned sign s =
    if is_prefix (codes "inf") (lower s)
    then ok (inf sign)
    else if is_prefix (codes "nan") (lower s)
    then ok nan
    else if is_prefix (codes "0x") (lower s)
    then read_hex sign (drop_two s)
    else read_decimal sign s

unfoldable pub stof : Bytes → Result Float
unfolding skip_spaces read_sign read_unsigned is_prefix lower read_hex read_decimal drop_two
    read_mantissa read_exponent scaled in_range
stof s = let (sign, s') = read_sign (skip_spaces s) in read_unsigned sign s'
