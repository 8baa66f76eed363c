-- ===== src/Command/Number/Octal.antt =====
-- A mode that is written by `0%o` is read by `strtol`.
use taylor_uucp.Base.{
  ℕ, zero, suc, ◌<◌, ◌≡◌, refl, ap, Bool, true, false, ◌&&◌, [], ◌∷◌, Bytes, ◌==◌, leb, ◌%◌, ◌^◌,
  arith,
}
use taylor_uucp.Command.Token.{Plain}
use taylor_uucp.Command.Number.{ℤ, pos, negsuc, strtol, to_int, octal}

all_below : ℕ → (ℕ → Bool) → Bool
all_below zero p = true
all_below (suc n) p = p n && all_below n p

all_below-true : (n : ℕ) (p : ℕ → Bool) (x : ℕ) → all_below n p ≡ true → x < n → p x ≡ true
unfolding all_below
all_below-true zero p x h lt = absurd (omega arith)
all_below-true (suc n) p x h lt = ground (arith, all_below-true n p x)

-- The value is `n` and all characters are read.
is_read : ℕ → ℤ × Bytes → Bool
is_read n (pos m, []) = m == n
is_read n r = false

is_read-eq : (n : ℕ) (r : ℤ × Bytes) → is_read n r ≡ true → r ≡ (pos n, [])
unfolding is_read
is_read-eq n (pos m, []) h = let e : m ≡ n = ground arith in ap (λ k. (pos k, [])) e
is_read-eq n (pos m, c ∷ z) h = cc
is_read-eq n (negsuc m, z) h = cc

-- No character is a blank.
abbrev pub no_blanks : Bytes → Bool
no_blanks [] = true
no_blanks (c ∷ z) = leb 33 c && no_blanks z

Plain-no_blanks : (z : Bytes) → no_blanks z ≡ true → Plain z
Plain-no_blanks [] h = tt
Plain-no_blanks (c ∷ z) h = (ground arith, Plain-no_blanks z (ground arith))

modes : all_below 512 (λ n. is_read n (strtol (b'0' ∷ octal (pos n)))) ≡ true
unfolding all_below is_read strtol octal
modes = refl

mode_words : all_below 512 (λ n. no_blanks (octal (pos n))) ≡ true
unfolding all_below octal
mode_words = refl

-- Modes are below 01000.
pub strtol-octal : (n : ℕ) → n < 512 → strtol (b'0' ∷ octal (pos n)) ≡ (pos n, [])
strtol-octal n h = is_read-eq n _ (all_below-true 512 _ n modes h)

pub octal-Plain : (n : ℕ) → n < 512 → Plain (octal (pos n))
octal-Plain n h = Plain-no_blanks (octal (pos n)) (all_below-true 512 _ n mode_words h)

pub strtol-zero : strtol (b'0' ∷ []) ≡ (pos 0, [])
unfolding strtol
strtol-zero = refl

-- An `int` that is a mode.
pub to_int-mode : (n : ℕ) → n < 512 → to_int (pos n) ≡ pos n
unfolding to_int
to_int-mode n h = let e : n % 2 ^ 32 ≡ n = omega arith in rw e (ground arith)
