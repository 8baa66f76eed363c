-- ===== src/Command/Token.antt =====
-- `strtok` with the blanks that separate the fields of a command.
use taylor_uucp.Base.{
  ℕ, ◌≡◌, refl, Bool, true, false, ◌||◌, Option, none, some, [], ◌∷◌, ◌++◌, Bytes, All, ◌==◌,
  if◌then◌else◌,
}

-- " \t\n"
abbrev pub is_separator : ℕ → Bool
is_separator c = c == 32 || c == 9 || c == 10

-- A string up to a separator, and what follows the separator, which becomes a zero.
pub to_separator : Bytes → Bytes × Bytes
to_separator [] = ([], [])
to_separator (c ∷ z) =
    let (t, rest) = to_separator z in if is_separator c then ([], z) else (c ∷ t, rest)

-- `strtok (z, " \t\n")`: the token, and the string on which the next call goes on.
pub token : Bytes → Option (Bytes × Bytes)
unfolding to_separator
token [] = none
token (c ∷ z) = let rest = token z in if is_separator c then rest else some (to_separator (c ∷ z))

-- The characters are not separators.
abbrev pub Plain : Bytes → Type 0
Plain = All (λ c. is_separator c ≡ false)

-- A string of such characters that is not empty.
abbrev pub IsWord : Bytes → Type 0
IsWord [] = ⊥
IsWord (c ∷ z) = (is_separator c ≡ false) × Plain z

to_separator-append :
    (t : Bytes) (d : ℕ) (z : Bytes)
    → Plain t
    → is_separator d ≡ true
    → to_separator (t ++ d ∷ z) ≡ (t, z)
unfolding to_separator
to_separator-append [] d z h e = rw e
to_separator-append (c ∷ t) d z h e = rw (h.0, to_separator-append t d z h.1 e)

-- The word at the head of a string is its first token.
pub token-append :
    (t : Bytes) (d : ℕ) (z : Bytes)
    → IsWord t
    → is_separator d ≡ true
    → token (t ++ d ∷ z) ≡ some (t, z)
unfolding token
token-append [] d z h e = elim h [ ]
token-append (c ∷ t) d z h e = rw (h.0, to_separator-append t d z h.1 e) refl

pub token-nil : token [] ≡ none
unfolding token
token-nil = refl

pub token-newline : token (10 ∷ []) ≡ none
unfolding token
token-newline = refl
