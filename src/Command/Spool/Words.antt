-- ===== src/Command/Spool/Words.antt =====
-- Strings of a command, as the words of its line.
use taylor_uucp.Base.{
  ℕ, ◌<◌, ◌≡◌, refl, sym, ap, ap₂, ◌∙◌, inl, inr, true, false, ◌||◌, [], ◌∷◌, ◌++◌, Bytes, All,
  AllBytes, codes, length, ◌==◌, Bool-cases, arith,
}
use taylor_uucp.Base.Ctype.{is_graph}
use taylor_uucp.Command.{has_char, has_separator, unquoted, same_string}
use taylor_uucp.Command.Escape.{backslash, quote_string, until_zero}
use taylor_uucp.Command.Escape.RoundTrip.{escape-quote_string, escape-plain}
use taylor_uucp.Command.Token.{IsWord, Plain}

-- The characters of a C string.
abbrev pub IsString : Bytes → Type 0
IsString = All (λ c. (0 < c) × (c < 256))

-- Such a string that is not empty.
abbrev pub IsField : Bytes → Type 0
IsField [] = ⊥
IsField (c ∷ z) = IsString (c ∷ z)

until_zero-IsString : (z : Bytes) → IsString z → until_zero z ≡ z
until_zero-IsString [] h = refl
until_zero-IsString (c ∷ z) h = ground (arith, until_zero-IsString z h.1)

IsString-AllBytes : (z : Bytes) → IsString z → AllBytes z
IsString-AllBytes [] h = tt
IsString-AllBytes (c ∷ z) h = (h.0.1, IsString-AllBytes z h.1)

pub unquoted-quote_string : (z : Bytes) → IsString z → unquoted (quote_string false z) ≡ z
unquoted-quote_string z h =
    ap until_zero (escape-quote_string false z (IsString-AllBytes z h)) ∙ until_zero-IsString z h

-- A string without backslashes is not changed.
pub unquoted-plain :
    (z : Bytes) → IsString z → All (λ c. (c == backslash) ≡ false) z → unquoted z ≡ z
unquoted-plain z h k = ap until_zero (escape-plain z k) ∙ until_zero-IsString z h

Plain-quote_string : (z : Bytes) → IsString z → Plain (quote_string false z)
unfolding quote_string
Plain-quote_string [] h = tt
Plain-quote_string (c ∷ z) h =
    let ih = Plain-quote_string z h.1 in
    elim (Bool-cases (c == backslash)) [
      | inl b ↦ rw b (refl, (refl, ih))
      | inr b ↦ elim (Bool-cases (is_graph c)) [
        | inl b' ↦ rw (b, b') (ground arith, ih)
        | inr b' ↦ rw (b, b') (refl, (ground arith, (ground arith, (ground arith, ih))))
      ]
    ]

IsWord-Plain : (z : Bytes) → Plain z → 0 < length z → IsWord z
IsWord-Plain [] h k = absurd (omega arith)
IsWord-Plain (c ∷ z) h k = h

quote_string-pos : (c : ℕ) (z : Bytes) → 0 < length (quote_string false (c ∷ z))
unfolding quote_string
quote_string-pos c z = ground arith

pub IsWord-quote_string : (z : Bytes) → IsField z → IsWord (quote_string false z)
IsWord-quote_string [] h = elim h [ ]
IsWord-quote_string (c ∷ z) h =
    IsWord-Plain (quote_string false (c ∷ z)) (Plain-quote_string (c ∷ z) h) (quote_string-pos c z)

pub IsField-IsString : (z : Bytes) → IsField z → IsString z
IsField-IsString [] h = tt
IsField-IsString (c ∷ z) h = h

same_string-eq : (a b : Bytes) → same_string a b ≡ true → a ≡ b
unfolding same_string
same_string-eq [] [] h = refl
same_string-eq (x ∷ a) (y ∷ b) h =
    ap₂ (λ c z. c ∷ z) (ground arith) (same_string-eq a b (ground arith))
same_string-eq (x ∷ a) [] h = cc
same_string-eq [] (y ∷ b) h = cc

-- Quoting makes no string "dummy" that was not.
pub quote_string-ne-dummy :
    (n : Bytes)
    → IsString n
    → same_string n (codes "dummy") ≡ false
    → same_string (quote_string false n) (codes "dummy") ≡ false
unfolding same_string
quote_string-ne-dummy n h e =
    elim (Bool-cases (same_string (quote_string false n) (codes "dummy"))) [
      | inl b ↦
          let d = same_string-eq (quote_string false n) (codes "dummy") b in
          let same : n ≡ codes "dummy" =
            sym (unquoted-quote_string n h)
            ∙ ap unquoted d
            ∙ unquoted-plain (codes "dummy") (omega arith)
                (refl, (refl, (refl, (refl, (refl, tt))))) in
          let s : same_string n (codes "dummy") ≡ true =
            ap (λ z. same_string z (codes "dummy")) same in
          cc
      | inr b ↦ b
    ]

Plain-has_separator : (z : Bytes) → has_separator z ≡ false → Plain z
Plain-has_separator [] h = tt
Plain-has_separator (c ∷ z) h = (ground arith, Plain-has_separator z (ground arith))

pub IsWord-has_separator : (z : Bytes) → IsField z → has_separator z ≡ false → IsWord z
IsWord-has_separator [] h k = elim h [ ]
IsWord-has_separator (c ∷ z) h k = Plain-has_separator (c ∷ z) k

pub has_char-append : (c : ℕ) (z w : Bytes) → has_char c (z ++ w) ≡ (has_char c z || has_char c w)
has_char-append c [] w = refl
has_char-append c (d ∷ z) w = ground (arith, has_char-append c z w)
