-- ===== src/Command/Escape.antt =====
-- lib/escape.c and lib/quotes.c: escape sequences in strings, and quoting by them.
pub mod RoundTrip
use taylor_uucp.Base.{
  ℕ, zero, suc, ◌+◌, ◌-◌, ◌*◌, ◌/◌, ◌%◌, ◌^◌, Bool, true, false, ◌&&◌, ◌||◌, [], ◌∷◌, ◌++◌, Bytes,
  ltb, leb, ◌==◌, if◌then◌else◌,
}
use taylor_uucp.Base.Ctype.{is_digit, is_upper, is_graph, head_char}

abbrev pub backslash : ℕ
backslash = 0o134

abbrev pub is_octal : ℕ → Bool
is_octal c = leb b'0' c && leb c b'7'

abbrev pub is_hex : ℕ → Bool
is_hex c = is_digit c || leb b'A' c && leb c b'F' || leb b'a' c && leb c b'f'

abbrev pub hex_digit_value : ℕ → ℕ
hex_digit_value c =
    if is_digit c then c - b'0' else if is_upper c then c - b'A' + 10 else c - b'a' + 10

-- At most `n` more octal digits: the number, with `i` before them, and how many there are.
pub octal_digits : ℕ → ℕ → Bytes → ℕ × ℕ
octal_digits zero i z = (i, 0)
octal_digits (suc n) i [] = (i, 0)
octal_digits (suc n) i (c ∷ z) =
    let (v, k) = octal_digits n (8 * i + (c - b'0')) z in if is_octal c then (v, k + 1) else (i, 0)

-- Hexadecimal digits, in an `int`.
pub hex_digits : ℕ → Bytes → ℕ × ℕ
hex_digits i [] = (i, 0)
hex_digits i (c ∷ z) =
    let (v, k) = hex_digits ((16 * i + hex_digit_value c) % 2 ^ 32) z in
    if is_hex c then (v, k + 1) else (i, 0)

-- The character of a sequence of one letter.
abbrev pub letter : ℕ → ℕ
letter c =
    if c == b'b'
    then 8
    else if c == b'n'
    then 10
    else if c == b'N'
    then 0
    else if c == b'r'
    then 13
    else if c == b's'
    then 32
    else if c == b't'
    then 9
    else c

-- What stands behind a backslash: the character it is written as, and how many characters of
-- the string it takes.
pub sequence : Bytes → ℕ × ℕ
unfolding octal_digits hex_digits
sequence [] = (backslash, 0)
sequence (c ∷ z) =
    let (octal, k) = octal_digits 2 (c - b'0') z in
    let (hex, j) = hex_digits 0 z in
    if is_digit c
    then (octal % 256, k + 1)
    else if c == b'x'
    then (hex % 256, j + 1)
    else (letter c, 1)

-- `cescape`, with the number of characters that a sequence still takes.
pub escape_from : ℕ → Bytes → Bytes
unfolding sequence
escape_from skip [] = []
escape_from (suc skip) (c ∷ z) = escape_from skip z
escape_from zero (c ∷ z) = elim (c == backslash) [
  | true ↦ let (v, n) = sequence z in v ∷ escape_from n z
  | false ↦ c ∷ escape_from zero z
]

unfoldable pub escape : Bytes → Bytes
unfolding escape_from
escape z = escape_from 0 z

-- `%03o` of a byte.
abbrev pub octal3 : ℕ → Bytes
octal3 c = (c / 64 % 8 + b'0') ∷ (c / 8 % 8 + b'0') ∷ (c % 8 + b'0') ∷ []

-- `zquote_cmd_string` on a string.
unfoldable pub quote_string : Bool → Bytes → Bytes
quote_string backslash_only [] = []
quote_string backslash_only (c ∷ z) =
    (if c == backslash
      then backslash ∷ backslash ∷ []
      else if backslash_only || is_graph c
      then c ∷ []
      else backslash ∷ octal3 c)
    ++ quote_string backslash_only z

-- What a C string shows of an array: the bytes before the first zero.
abbrev pub until_zero : Bytes → Bytes
until_zero [] = []
until_zero (c ∷ z) = let rest = until_zero z in if c == 0 then [] else c ∷ rest
