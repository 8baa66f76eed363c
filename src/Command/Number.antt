-- ===== src/Command/Number.antt =====
-- `strtol`, with base 0, and the format `0%o`.
pub mod Octal
use taylor_uucp.Base.{
  ℕ, zero, suc, ◌+◌, ◌-◌, ◌*◌, ◌/◌, ◌%◌, ◌^◌, min, Bool, true, false, ◌&&◌, ◌||◌, Option, none,
  some, [], ◌∷◌, ◌++◌, Bytes, ltb, leb, ◌==◌, if◌then◌else◌,
}
use taylor_uucp.Base.Ctype.{is_digit, is_upper, is_lower, head_char}

-- `negsuc n` is -(n + 1).
pub data ℤ : Type 0 where
  pos : ℕ → ℤ
  negsuc : ℕ → ℤ

abbrev pub minus_one : ℤ
minus_one = negsuc 0

-- The value of a digit, and 36 if it is none.
abbrev pub digit_value : ℕ → ℕ
digit_value c =
    if is_digit c
    then c - b'0'
    else if is_upper c
    then c - b'A' + 10
    else if is_lower c
    then c - b'a' + 10
    else 36

-- The digits of the number, the digits before them in `n`, and what follows.
unfoldable pub digits_of : ℕ → ℕ → Bytes → ℕ × Bytes
digits_of base n [] = (n, [])
digits_of base n (c ∷ z) =
    let rest = digits_of base (n * base + digit_value c) z in
    if ltb (digit_value c) base then rest else (n, c ∷ z)

abbrev pub is_blank : ℕ → Bool
is_blank c = c == 32 || leb 9 c && leb c 13

unfoldable pub skip_blank : Bytes → Bytes
skip_blank [] = []
skip_blank (c ∷ z) = let rest = skip_blank z in if is_blank c then rest else c ∷ z

-- The digits that base 0 makes of a string, and what follows. `none`: no digit.
pub magnitude : Bytes → Option (ℕ × Bytes)
unfolding digits_of
magnitude [] = none
magnitude (c ∷ []) = if is_digit c then some (c - b'0', []) else none
magnitude (c ∷ d ∷ []) =
    if c == b'0'
    then some (digits_of 8 0 (d ∷ []))
    else if is_digit c
    then some (digits_of 10 0 (c ∷ d ∷ []))
    else none
magnitude (c ∷ d ∷ e ∷ z) =
    if c == b'0' && (d == b'x' || d == b'X') && ltb (digit_value e) 16
    then some (digits_of 16 0 (e ∷ z))
    else if c == b'0'
    then some (digits_of 8 0 (d ∷ e ∷ z))
    else if is_digit c
    then some (digits_of 10 0 (c ∷ d ∷ e ∷ z))
    else none

-- A `long` of 64 bits.
abbrev pub signed : Bool → ℕ → ℤ
signed true zero = pos 0
signed true (suc n) = negsuc (min n (2 ^ 63 - 1))
signed false n = pos (min n (2 ^ 63 - 1))

abbrev pub without_sign : Bytes → Bool × Bytes
without_sign [] = (false, [])
without_sign (c ∷ z) =
    if c == b'-' then (true, z) else if c == b'+' then (false, z) else (false, c ∷ z)

-- The number, and what stands at `*zend`.
pub strtol : Bytes → ℤ × Bytes
unfolding magnitude skip_blank
strtol z =
    let (negative, z') = without_sign (skip_blank z) in
    elim (magnitude z') [ none ↦ (pos 0, z) | some (n, rest) ↦ (signed negative n, rest) ]

-- `(int)` of a `long`.
pub to_int : ℤ → ℤ
to_int (pos n) = let m = n % 2 ^ 32 in if ltb m (2 ^ 31) then pos m else negsuc (2 ^ 32 - 1 - m)
to_int (negsuc n) = let m = n % 2 ^ 32 in if ltb m (2 ^ 31) then negsuc m else pos (2 ^ 32 - 1 - m)

-- The digits of a number in base eight, before `rest`. A number has fewer digits than `f`.
pub octal_before : ℕ → ℕ → Bytes → Bytes
octal_before zero n rest = rest
octal_before (suc f) n rest =
    let more = octal_before f (n / 8) ((n % 8 + b'0') ∷ rest) in
    if ltb n 8 then (n + b'0') ∷ rest else more

-- `%o` of an `int`, whose bits are those of an unsigned number.
pub octal : ℤ → Bytes
unfolding octal_before
octal (pos n) = octal_before 11 (n % 2 ^ 32) []
octal (negsuc n) = octal_before 11 (2 ^ 32 - 1 - n % 2 ^ 32) []
