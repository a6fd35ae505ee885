-- ===== src/Float/Stof/Digits.antt =====
-- How `std::stof` reads the digits of a number.
use native.Mathlib.Nat.{div-add-mod, mod-lt}
use tabmo_codding_challenge.Common.Text.{Bytes, codes, is_prefix, lower, to_lower}
use tabmo_codding_challenge.Common.{
  ℕ, zero, suc, ◌+◌, ◌*◌, ◌/◌, ◌%◌, ◌≤◌, ◌<◌, ◌≡◌, inl, inr, refl, ap, ◌∙◌, false, [], ◌∷◌, ◌++◌,
  arith, ltb, ltb→lt, lt→ltb, ◌==◌, Bool-cases, All,
}
use tabmo_codding_challenge.Float.Print.{decimal_from}
use tabmo_codding_challenge.Float.Stof.{
  stof, read_digits, digit, read_decimal, skip_spaces, is_space, read_sign, read_unsigned,
}

digit_char : (d : ℕ) → d < 10 → digit (b'0' + d) ≡ d
unfolding digit
digit_char d h = ground arith

pub read_digits-char :
    (v c d : ℕ) (s : Bytes)
    → d < 10
    → read_digits 10 v c ((b'0' + d) ∷ s) ≡ read_digits 10 (v * 10 + d) (suc c) s
unfolding read_digits
read_digits-char v c d s h = let e = digit_char d h in rw e (rw (lt→ltb d 10 h) refl)

-- The digits of a number read as the number.
pub read_digits-decimal_from :
    (fuel n : ℕ) (out : Bytes)
    → n < fuel
    → (k : ℕ) × (1 ≤ k) × (read_digits 10 0 0 (decimal_from fuel n out) ≡ read_digits 10 n k out)
unfolding decimal_from
read_digits-decimal_from zero n out h = absurd (omega arith)
read_digits-decimal_from (suc fuel) n out h = elim (Bool-cases (ltb n 10)) [
  | inl small ↦
      let below = ltb→lt n 10 small in
      let e : n % 10 ≡ n = omega (arith, div-add-mod n 10, mod-lt n {m = 10} (omega arith)) in
      rw (small, e)
        (
          1,
          omega arith,
          read_digits-char 0 0 n out below ∙ ap (λ v. read_digits 10 v 1 out) (omega arith),
        )
  | inr big ↦
      let tens : 10 * (n / 10) + n % 10 ≡ n = div-add-mod n 10 in
      let (k, pos, e) =
        read_digits-decimal_from fuel (n / 10) ((b'0' + n % 10) ∷ out) (ground arith) in
      rw big (
        suc k,
        omega arith,
        e
            ∙ read_digits-char (n / 10) k (n % 10) out (mod-lt n (omega arith))
            ∙ ap (λ v. read_digits 10 v (suc k) out) (omega arith),
      )
]

pub decimal_from-append :
    (fuel n : ℕ) (out t : Bytes) → decimal_from fuel n out ++ t ≡ decimal_from fuel n (out ++ t)
unfolding decimal_from
decimal_from-append zero n out t = refl
decimal_from-append (suc fuel) n out t = elim (Bool-cases (ltb n 10)) [
  | inl small ↦ rw small refl
  | inr big ↦ rw big (decimal_from-append fuel (n / 10) ((b'0' + n % 10) ∷ out) t)
]

-- The characters of a number with a point: those below the letters.
abbrev pub IsPlain : ℕ → Type 0
IsPlain c = c < 65

pub decimal_from-IsPlain :
    (fuel n : ℕ) (out : Bytes) → All IsPlain out → All IsPlain (decimal_from fuel n out)
unfolding decimal_from
decimal_from-IsPlain zero n out all = all
decimal_from-IsPlain (suc fuel) n out all =
    let below : n % 10 < 10 = mod-lt n (omega arith) in
    elim (Bool-cases (ltb n 10)) [
      | inl small ↦ rw small (omega arith, all)
      | inr big ↦
          rw big (decimal_from-IsPlain fuel (n / 10) ((b'0' + n % 10) ∷ out) (omega arith, all))
    ]

pub decimal_from_head :
    (fuel n : ℕ) (out : Bytes)
    → n < fuel
    → (d : ℕ) × (rest : Bytes) × (d < 10) × (decimal_from fuel n out ≡ (b'0' + d) ∷ rest)
unfolding decimal_from
decimal_from_head zero n out h = absurd (omega arith)
decimal_from_head (suc fuel) n out h =
    let below : n % 10 < 10 = mod-lt n (omega arith) in
    elim (Bool-cases (ltb n 10)) [
      | inl small ↦ rw small (n % 10, out, below, refl)
      | inr big ↦ rw big (decimal_from_head fuel (n / 10) ((b'0' + n % 10) ∷ out) (ground arith))
    ]

lower-digit : (d : ℕ) → d < 10 → to_lower (b'0' + d) ≡ b'0' + d
unfolding to_lower
lower-digit d h = ground arith

-- A text that begins with a digit and has no letter is read as a decimal number.
module _ (d : ℕ) (h : d < 10) where
  skip_spaces-digit : (rest : Bytes) → skip_spaces ((b'0' + d) ∷ rest) ≡ (b'0' + d) ∷ rest
  unfolding skip_spaces is_space
  skip_spaces-digit rest = ground arith

  read_sign-digit : (rest : Bytes) → read_sign ((b'0' + d) ∷ rest) ≡ (false, (b'0' + d) ∷ rest)
  unfolding read_sign
  read_sign-digit rest = ground arith

  -- No word begins with a digit.
  no_word :
      (c : ℕ) (word rest : Bytes)
      → 65 < c
      → is_prefix (c ∷ word) (lower ((b'0' + d) ∷ rest)) ≡ false
  unfolding is_prefix lower
  no_word c word rest letter =
      rw (lower-digit d h) (let differ : (c == (b'0' + d)) ≡ false = ground arith in rw differ refl)

  no_hex :
      (rest : Bytes) → All IsPlain rest → is_prefix (codes "0x") (lower ((b'0' + d) ∷ rest)) ≡ false
  unfolding is_prefix lower to_lower
  no_hex [] all = ground arith
  no_hex (c ∷ rest) (plain, all) = ground arith

  pub stof-digit :
      (rest : Bytes)
      → All IsPlain rest
      → stof ((b'0' + d) ∷ rest) ≡ read_decimal false ((b'0' + d) ∷ rest)
  unfolding stof
  stof-digit rest all =
      rw (skip_spaces-digit rest, read_sign-digit rest, read_unsigned)
        (rw
          (
            no_word b'i' (codes "nf") rest (omega arith),
            no_word b'n' (codes "an") rest (omega arith),
            no_hex rest all,
          )
          refl)
