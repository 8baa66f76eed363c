-- ===== src/Command/Escape/RoundTrip.antt =====
-- `cescape` gives back what `zquote_cmd_string` was given.
use taylor_uucp.Base.{
  ℕ, ◌+◌, ◌/◌, ◌%◌, ◌<◌, ◌≡◌, refl, sym, ap, ◌∙◌, inl, inr, Bool, true, false, ◌||◌, [], ◌∷◌, ◌++◌,
  Bytes, All, AllBytes, ◌==◌, Bool-cases, arith,
}
use taylor_uucp.Base.Ctype.{is_digit, is_graph}
use taylor_uucp.Command.Escape.{
  backslash, is_octal, octal_digits, sequence, escape_from, escape, octal3, quote_string,
}

sequence-octal3 : (c : ℕ) (z : Bytes) → c < 256 → sequence (octal3 c ++ z) ≡ (c, 3)
unfolding sequence octal_digits
sequence-octal3 c z h =
    let a : is_digit (c / 64 % 8 + b'0') ≡ true = ground arith in
    let b : is_octal (c / 8 % 8 + b'0') ≡ true = ground arith in
    let d : is_octal (c % 8 + b'0') ≡ true = ground arith in
    rw (a, b, d) (ap (λ n. (n, 3)) (omega arith))

escape_octal3 :
    (c : ℕ) (z : Bytes)
    → c < 256
    → escape_from 0 (backslash ∷ (octal3 c ++ z)) ≡ c ∷ escape_from 0 z
unfolding escape_from
escape_octal3 c z h =
    let r = λ (p : ℕ × ℕ). p.0 ∷ escape_from p.1 (octal3 c ++ z) in ap r (sequence-octal3 c z h)

escape_from-plain :
    (c : ℕ) (z : Bytes) → (c == backslash) ≡ false → escape_from 0 (c ∷ z) ≡ c ∷ escape_from 0 z
unfolding escape_from
escape_from-plain c z b = rw (b, escape_from) refl

-- `cescape` gives back every string of bytes that `zquote_cmd_string` has quoted, with either
-- setting of `fbackslashonly`.
pub escape-quote_string :
    (backslash_only : Bool) (z : Bytes) → AllBytes z → escape (quote_string backslash_only z) ≡ z
unfolding escape quote_string escape_from
escape-quote_string only [] h = refl
escape-quote_string only (c ∷ z) (hc, h) =
    let ih = escape-quote_string only z h in
    elim (Bool-cases (c == backslash)) [
      | inl b ↦
          let e : c ≡ backslash = ground arith in
          rw b
            (unfold sequence octal_digits in ap (λ w. backslash ∷ w) ih ∙ ap (λ d. d ∷ z) (sym e))
      | inr b ↦ elim (Bool-cases (only || is_graph c)) [
        | inl b' ↦ rw (b, b') (escape_from-plain c (quote_string only z) b ∙ ap (λ w. c ∷ w) ih)
        | inr b' ↦ rw (b, b') (escape_octal3 c (quote_string only z) hc ∙ ap (λ w. c ∷ w) ih)
      ]
    ]

pub escape-plain : (z : Bytes) → All (λ c. (c == backslash) ≡ false) z → escape z ≡ z
unfolding escape
escape-plain [] h = unfold escape_from in refl
escape-plain (c ∷ z) h = escape_from-plain c z h.0 ∙ ap (λ w. c ∷ w) (escape-plain z h.1)
