-- ===== src/Float/Stof/Printed.antt =====
-- What `std::stof` reads from the decimal output of a `float`.
use native.Mathlib.Nat.{mod-lt}
use tabmo_codding_challenge.Common.Result.{ok}
use tabmo_codding_challenge.Common.Text.{Bytes}
use tabmo_codding_challenge.Common.{
  ℕ, suc, ◌+◌, ◌*◌, ◌/◌, ◌%◌, ◌^◌, ◌≤◌, ◌<◌, ◌≡◌, ◌⊎◌, inl, inr, refl, sym, ap, subst, ◌∙◌, false,
  [], ◌∷◌, arith, ◌==◌, All,
}
use tabmo_codding_challenge.Float.{fin, one, limit}
use tabmo_codding_challenge.Float.Print.{decimal_from, decimal, padded, scaled, print_fixed}
use tabmo_codding_challenge.Float.Round.{round_ratio, spacing, max_doublings}
use tabmo_codding_challenge.Float.Round.Error.{
  ulp_normal, spacing_lem, round_ratio_error, nearest_error,
}
use tabmo_codding_challenge.Float.Stof
use tabmo_codding_challenge.Float.Stof.{
  stof, read_digits, digit, read_decimal, skip_spaces, is_space, read_sign, read_unsigned,
  read_mantissa, read_fraction, in_range, read_exponent,
}
use tabmo_codding_challenge.Float.Stof.Digits.{
  read_digits-char, read_digits-decimal_from, decimal_from-append, IsPlain, decimal_from-IsPlain,
  decimal_from_head, stof-digit,
}

-- A number of hundredths, printed with two places, reads as that number and two places.
cents : ℕ → Bytes
cents n =
    decimal_from (suc (n / 100)) (n / 100) (b'.' ∷ (b'0' + n / 10 % 10) ∷ (b'0' + n % 10) ∷ [])

read_digits-point : (v k : ℕ) (s : Bytes) → read_digits 10 v k (b'.' ∷ s) ≡ (v, k, b'.' ∷ s)
unfolding read_digits digit
read_digits-point v k s = refl

read_fraction-point :
    (v k n places : ℕ) (s : Bytes)
    → read_digits 10 v 0 s ≡ (n, places, [])
    → read_fraction 10 (v, k, b'.' ∷ s) ≡ (n, k, places, [])
unfolding read_fraction
read_fraction-point v k n places s e = rw e refl

read_digits-places :
    (v d e : ℕ)
    → d < 10
    → e < 10
    → read_digits 10 v 0 ((b'0' + d) ∷ (b'0' + e) ∷ []) ≡ ((v * 10 + d) * 10 + e, 2, [])
unfolding read_digits
read_digits-places v d e hd he =
    read_digits-char v 0 d ((b'0' + e) ∷ []) hd ∙ read_digits-char (v * 10 + d) 1 e [] he

read_mantissa-cents : (n : ℕ) → (k : ℕ) × (read_mantissa 10 (cents n) ≡ (n, k, 2, []))
unfolding cents read_mantissa
read_mantissa-cents n =
    let p = (b'0' + n / 10 % 10) ∷ (b'0' + n % 10) ∷ [] in
    let (k, _, e) = read_digits-decimal_from (suc (n / 100)) (n / 100) (b'.' ∷ p) (omega arith) in
    let value : (n / 100 * 10 + n / 10 % 10) * 10 + n % 10 ≡ n = omega arith in
    (
      k,
      ap (read_fraction 10) (e ∙ read_digits-point (n / 100) k p)
          ∙ read_fraction-point (n / 100) k n 2 p (
              read_digits-places (n / 100) (n / 10 % 10) (n % 10) (mod-lt (n / 10) (omega arith))
                (mod-lt n (omega arith))
              ∙ ap (λ v. (v, 2, [])) value),
    )

-- Up to 2 ^ 40 hundredths are in the range of `float`.
round_ratio-cents : (n : ℕ) → n ≤ 2 ^ 40 → round_ratio (n * one) 100 < limit
round_ratio-cents n small =
    let (up, _) = round_ratio_error (n * one) 100 (omega arith) in
    let fine : (spacing (n * one) 100 ≡ 1) ⊎ (100 * spacing (n * one) 100 * 2 ^ 23 ≤ n * one) =
      rw spacing_lem (ulp_normal max_doublings (n * one) 100 1) in
    elim fine [ inl e ↦ omega arith | inr normal ↦ omega arith ]

in_range-cents :
    (n : ℕ) → n ≤ 2 ^ 40 → in_range false (n * one) 100 ≡ ok (fin false (round_ratio (n * one) 100))
unfolding in_range
in_range-cents n small = let finite = round_ratio-cents n small in ground arith

print_fixed-cents : (m : ℕ) → print_fixed 2 (fin false m) ≡ cents (scaled 2 m)
unfolding print_fixed cents decimal padded
print_fixed-cents m =
    decimal_from-append (suc (scaled 2 m / 100)) (scaled 2 m / 100) []
      (b'.' ∷ (b'0' + scaled 2 m / 10 % 10) ∷ (b'0' + scaled 2 m % 10) ∷ [])

read_decimal-cents :
    (n : ℕ) → n ≤ 2 ^ 40 → read_decimal false (cents n) ≡ ok (fin false (round_ratio (n * one) 100))
unfolding read_decimal Stof.scaled read_exponent
read_decimal-cents n small =
    let (k, e) = read_mantissa-cents n in
    let some_digit : (k + 2 == 0) ≡ false = ground arith in
    rw (e, read_decimal)
      (rw some_digit (ap (λ t. in_range false t 100) (omega arith) ∙ in_range-cents n small))

stof-cents : (n : ℕ) → n ≤ 2 ^ 40 → stof (cents n) ≡ ok (fin false (round_ratio (n * one) 100))
unfolding cents
stof-cents n small =
    let p = b'.' ∷ (b'0' + n / 10 % 10) ∷ (b'0' + n % 10) ∷ [] in
    let (d, rest, h, e) = decimal_from_head (suc (n / 100)) (n / 100) p (omega arith) in
    let plain : All IsPlain (cents n) = decimal_from-IsPlain (suc (n / 100)) (n / 100) p (
      omega arith,
      (
        omega (arith, mod-lt (n / 10) {m = 10} (omega arith)),
        (omega (arith, mod-lt n {m = 10} (omega arith)), tt),
      ),
    ) in
    let plain' : All IsPlain ((b'0' + d) ∷ rest) = subst (All IsPlain) e plain in
    ap stof e
    ∙ stof-digit d h rest plain'.1
    ∙ ap (read_decimal false) (sym e)
    ∙ read_decimal-cents n small

-- A value up to 2 ^ 20 that is printed with two places reads back as the float nearest to a number of
-- hundredths, and this number is within half a hundredth of the value.
pub stof-print_fixed :
    (m : ℕ)
    → m ≤ 2 ^ 20 * one
    → (n : ℕ) × (stof (print_fixed 2 (fin false m)) ≡ ok (fin false (round_ratio (n * one) 100)))
      × (2 * (n * one) ≤ 2 * (m * 100) + one)
      × (2 * (m * 100) ≤ 2 * (n * one) + one)
unfolding scaled
stof-print_fixed m small =
    let (up, down) = nearest_error (m * 100) one (omega arith) in
    let bound : scaled 2 m ≤ 2 ^ 40 = omega (arith, up) in
    (scaled 2 m, ap stof (print_fixed-cents m) ∙ stof-cents (scaled 2 m) bound, up, down)
