-- ===== src/Float/Stof/Floats.antt =====
-- `std::stof` returns a value of the type `float`.
use native.Mathlib.Nat.{dvd-zero, pow-suc, pow-zero}
use tabmo_codding_challenge.Common.Text.{Bytes, codes, is_prefix, lower}
use tabmo_codding_challenge.Common.Result.{ok, err, invalid_argument, Ensures, Ensures-if}
use tabmo_codding_challenge.Common.{ℕ, zero, suc, ◌+◌, ◌^◌, ◌<◌, Bool, true, false, arith, ◌==◌}
use tabmo_codding_challenge.Float.{nan, inf, fin}
use tabmo_codding_challenge.Float.Value.{IsFloat, round_ratio-IsFloat}
use tabmo_codding_challenge.Float.Stof.{
  in_range, scaled, drop_two, read_decimal, read_hex, read_unsigned, stof, read_mantissa,
  read_exponent, skip_spaces, read_sign,
}

in_range-IsFloat : (sign : Bool) (num den : ℕ) → 0 < den → Ensures IsFloat (in_range sign num den)
unfolding in_range
in_range-IsFloat sign num den pos = ground (arith, round_ratio-IsFloat sign num den pos)

pow-pos : (b n : ℕ) → 0 < b → 0 < b ^ n
pow-pos b zero h = rw pow-zero (omega arith)
pow-pos b (suc n) h = rw pow-suc (grind (arith, pow-pos b n h))

scaled-IsFloat :
    (sign : Bool) (radix step value places : ℕ) (e : Bool × ℕ)
    → 0 < radix
    → 0 < step
    → Ensures IsFloat (scaled sign radix step value places e)
unfolding scaled
scaled-IsFloat sign radix step value places (true, e) hr hs =
    in_range-IsFloat sign _ _ (grind (arith, pow-pos step places hs, pow-pos radix e hr))
scaled-IsFloat sign radix step value places (false, e) hr hs =
    in_range-IsFloat sign _ _ (pow-pos step places hs)

pub zero-IsFloat : (sign : Bool) → IsFloat (fin sign 0)
zero-IsFloat sign = (dvd-zero _, omega arith)

read_decimal-IsFloat : (sign : Bool) (s : Bytes) → Ensures IsFloat (read_decimal sign s)
unfolding read_decimal
read_decimal-IsFloat sign s =
    let (value, whole, places, rest) = read_mantissa 10 s in
    Ensures-if IsFloat (whole + places == 0) (err invalid_argument)
      (scaled sign 10 10 value places (read_exponent b'e' rest)) tt
      (scaled-IsFloat sign 10 10 value places (read_exponent b'e' rest) (omega arith) (omega arith))

read_hex-IsFloat : (sign : Bool) (s : Bytes) → Ensures IsFloat (read_hex sign s)
unfolding read_hex
read_hex-IsFloat sign s =
    let (value, whole, places, rest) = read_mantissa 16 s in
    Ensures-if IsFloat (whole + places == 0) (ok (fin sign 0))
      (scaled sign 2 16 value places (read_exponent b'p' rest)) (zero-IsFloat sign)
      (scaled-IsFloat sign 2 16 value places (read_exponent b'p' rest) (omega arith) (omega arith))

read_unsigned-IsFloat : (sign : Bool) (s : Bytes) → Ensures IsFloat (read_unsigned sign s)
unfolding read_unsigned
read_unsigned-IsFloat sign s =
    Ensures-if IsFloat (is_prefix (codes "inf") (lower s)) (ok (inf sign)) _ tt (
      Ensures-if IsFloat (is_prefix (codes "nan") (lower s)) (ok nan) _ tt (
        Ensures-if IsFloat (is_prefix (codes "0x") (lower s)) (read_hex sign (drop_two s))
          (read_decimal sign s) (read_hex-IsFloat sign (drop_two s)) (read_decimal-IsFloat sign s)))

pub stof-IsFloat : (s : Bytes) → Ensures IsFloat (stof s)
unfolding stof
stof-IsFloat s = let (sign, s') = read_sign (skip_spaces s) in read_unsigned-IsFloat sign s'
