-- ===== src/E/Number/Decimal.antt =====
-- A number that `%ld` writes is read by `strtol`.
use taylor_uucp.Base.{
  ℕ, zero, suc, ◌+◌, ◌-◌, ◌*◌, ◌/◌, ◌%◌, ◌^◌, ◌≤◌, ◌<◌, ◌≡◌, refl, ap, ◌∙◌, inl, inr, true, false,
  [], ◌∷◌, ◌++◌, All, Bytes, length, min, ltb, ◌==◌, Bool-cases, arith,
}
use native.Mathlib.Nat.{pow-suc}
use taylor_uucp.Command.Number.{pos, digits_of, skip_blank, is_blank, without_sign, digit_value}
use taylor_uucp.E.Number.{decimal_before, decimal, string_of, strtol_decimal}

-- The character of a digit.
pub record IsDecimal (c : ℕ) : Type 0 where
  pub low : 48 ≤ c
  pub high : c ≤ 57

-- How many digits stand before the rest.
decimal_before-length :
    (f n : ℕ) (rest : Bytes)
    → let l = length (decimal_before f n rest) in (length rest ≤ l) × (l ≤ f + length rest)
unfolding decimal_before
decimal_before-length zero n rest = omega arith
decimal_before-length (suc f) n rest = elim (Bool-cases (ltb n 10)) [
  | inl t ↦ rw t (omega arith)
  | inr t ↦ rw t (omega (arith, decimal_before-length f (n / 10) ((n % 10 + b'0') ∷ rest)))
]

decimal_before-suc : (f n : ℕ) (rest : Bytes) → 0 < length (decimal_before (suc f) n rest)
unfolding decimal_before
decimal_before-suc f n rest = elim (Bool-cases (ltb n 10)) [
  | inl t ↦ rw t (omega arith)
  | inr t ↦ rw t (omega (arith, decimal_before-length f (n / 10) ((n % 10 + b'0') ∷ rest)))
]

decimal_before-All :
    (f n : ℕ) (rest : Bytes) → All IsDecimal rest → All IsDecimal (decimal_before f n rest)
unfolding decimal_before
decimal_before-All zero n rest h = h
decimal_before-All (suc f) n rest h = elim (Bool-cases (ltb n 10)) [
  | inl t ↦ rw t (record { low = omega arith; high = ground arith }, h)
  | inr t ↦ rw t (
      decimal_before-All f (n / 10) ((n % 10 + b'0') ∷ rest)
        (record { low = omega arith; high = omega arith }, h))
]

digits_of-digit :
    (n d : ℕ) (z : Bytes) → d < 10 → digits_of 10 n ((d + b'0') ∷ z) ≡ digits_of 10 (n * 10 + d) z
unfolding digits_of
digits_of-digit n d z h =
    let v : digit_value (d + 48) ≡ d = ground arith in
    let t : ltb d 10 ≡ true = ground arith in rw (v, t) refl

digits_of-decimal_before :
    (f n : ℕ) (rest : Bytes)
    → n < 10 ^ f
    → digits_of 10 0 (decimal_before f n rest) ≡ digits_of 10 n rest
unfolding decimal_before
digits_of-decimal_before zero n rest h = let e : n ≡ 0 = omega arith in rw e refl
digits_of-decimal_before (suc f) n rest h = elim (Bool-cases (ltb n 10)) [
  | inl t ↦
      rw t (digits_of-digit 0 n rest (ground arith) ∙ ap (λ k. digits_of 10 k rest) (omega arith))
  | inr t ↦
      let e : n / 10 * 10 + n % 10 ≡ n = omega arith in
      rw t (
        digits_of-decimal_before f (n / 10) ((n % 10 + b'0') ∷ rest) (omega (arith, pow-suc 10 f))
        ∙ digits_of-digit (n / 10) (n % 10) rest (omega arith)
        ∙ ap (λ k. digits_of 10 k rest) e)
]

string_of-append : (z w : Bytes) → All IsDecimal z → string_of (z ++ 0 ∷ w) ≡ z
unfolding string_of
string_of-append [] w h = refl
string_of-append (c ∷ z) w h =
    let low = h.0.low in
    let t : (c == 0) ≡ false = ground arith in rw (t, string_of-append z w h.1) refl

-- The first digit is no blank and no sign.
digits_start :
    (z : Bytes) → All IsDecimal z → 0 < length z → without_sign (skip_blank z) ≡ (false, z)
unfolding skip_blank
digits_start [] h l = absurd (omega arith)
digits_start (c ∷ z) h l =
    let low = h.0.low in
    let high = h.0.high in
    let b : is_blank c ≡ false = ground arith in
    let m : (c == b'-') ≡ false = ground arith in
    let p : (c == b'+') ≡ false = ground arith in rw (b, m, p) refl

-- A number with a null byte behind it is read whole.
pub strtol_decimal-decimal :
    (n : ℕ) (w : Bytes) → n < 2 ^ 63 → strtol_decimal (decimal (pos n) ++ 0 ∷ w) ≡ pos n
unfolding strtol_decimal decimal digits_of
strtol_decimal-decimal n w h =
    let z = decimal_before 19 n [] in
    let a = decimal_before-All 19 n [] tt in
    let s = string_of-append z w a in
    let d = digits_start z a (decimal_before-suc 18 n []) in
    let r = digits_of-decimal_before 19 n [] (omega arith) in
    let m : min n (2 ^ 63 - 1) ≡ n = omega arith in rw (s, d, r) (ap pos m)

pub length-decimal : (n : ℕ) → length (decimal (pos n)) < 20
unfolding decimal
length-decimal n = omega (arith, decimal_before-length 19 n [])
