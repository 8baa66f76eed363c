-- ===== src/E/Number.antt =====
-- `%ld` and `strtol` with base 10, and what a number of bytes becomes.
pub mod Decimal
use taylor_uucp.Base.{
  ℕ, zero, suc, ◌+◌, ◌-◌, ◌*◌, ◌/◌, ◌%◌, ◌^◌, ◌≤◌, ◌<◌, ◌≡◌, refl, ap, ◌∙◌, inl, inr, Bool, true,
  false, [], ◌∷◌, ◌++◌, All, Bytes, length, ltb, leb, ◌==◌, if◌then◌else◌, Bool-cases, arith,
}
use taylor_uucp.Base.Ctype.{is_digit}
use taylor_uucp.Command.Number.{
  ℤ, pos, negsuc, digits_of, skip_blank, without_sign, signed, digit_value,
}

-- The digits of a number in base ten, before `rest`. A number has at most `f` digits.
pub decimal_before : ℕ → ℕ → Bytes → Bytes
decimal_before zero n rest = rest
decimal_before (suc f) n rest =
    let more = decimal_before f (n / 10) ((n % 10 + b'0') ∷ rest) in
    if ltb n 10 then (n + b'0') ∷ rest else more

-- `%ld`.
unfoldable pub decimal : ℤ → Bytes
decimal (pos n) = decimal_before 19 n []
decimal (negsuc n) = b'-' ∷ decimal_before 19 (n + 1) []

-- The string that ends at a null byte.
pub string_of : Bytes → Bytes
string_of [] = []
string_of (b ∷ z) = let rest = string_of z in if b == 0 then [] else b ∷ rest

-- `strtol (ab, NULL, 10)`, where a null byte stands behind the array.
unfoldable pub strtol_decimal : Bytes → ℤ
strtol_decimal ab =
    let (negative, z) = without_sign (skip_blank (string_of ab)) in
    signed negative (digits_of 10 0 z).0

-- `cEbytes -= n`.
unfoldable pub minus_nat : ℤ → ℕ → ℤ
minus_nat (pos m) n = if leb n m then pos (m - n) else negsuc (n - m - 1)
minus_nat (negsuc m) n = negsuc (m + n)
