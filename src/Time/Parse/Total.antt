-- ===== src/Time/Parse/Total.antt =====
-- The loops through a time string end.
use taylor_uucp.Base.{
  ℕ, zero, suc, ◌+◌, ◌-◌, ◌*◌, ◌≤◌, ◌<◌, ◌≡◌, ◌≢◌, inl, inr, Bool, true, false, ◌||◌, some, List,
  [], ◌∷◌, Bytes, length, drop, All, ◌==◌, Bool-cases, Option-cases, arith,
}
use taylor_uucp.Base.Ctype.{is_digit, is_alpha, starts_with, head_char}
use taylor_uucp.Time.{Span, Compare}
use taylor_uucp.Time.Parse.{
  Parsed, parsed, syntax_error, too_large, beyond, ◌>>=◌, day_names, find_day, set_days, parse_days,
  parse_number, parse_end, parse_hours, skip_mark, add_days, parse_spans,
}

-- Within its rounds, and leaves at most `n` characters.
abbrev Leaves : {A : Type 0} → (A → Bytes) → ℕ → Parsed A → Type 0
Leaves rest n (parsed a) = length (rest a) ≤ n
Leaves rest n beyond = ⊥
Leaves rest n other = Unit {0}

length-drop-name :
    (z name : Bytes)
    → starts_with z name ≡ true
    → length (drop (length name) z) + length name ≡ length z
unfolding starts_with
length-drop-name z [] h = omega arith
length-drop-name [] (c ∷ name) h = cc
length-drop-name (x ∷ z) (c ∷ name) h = omega (arith, length-drop-name z name (ground arith))

abbrev Named : ℕ × ℕ × Bytes → Bytes → Type 0
Named (first, count, z') z = length z' < length z

find_day-Named :
    (names : List (Bytes × ℕ × ℕ)) (z : Bytes) (r : ℕ × ℕ × Bytes)
    → All (λ n. 0 < length n.0) names
    → find_day names z ≡ some r
    → Named r z
unfolding find_day
find_day-Named [] z r h e = cc
find_day-Named ((name, first, count) ∷ names) z r h e = elim (Bool-cases (starts_with z name)) [
  | inl b ↦ ground (arith, length-drop-name z name b)
  | inr b ↦ find_day-Named names z r h.1 (ground arith)
]

-- A letter at the head is one character at least.
alpha-length : (z : Bytes) → is_alpha (head_char z) ≡ true → 0 < length z
alpha-length [] h = cc
alpha-length (c ∷ z) h = omega arith

parse_days-Leaves :
    (f n : ℕ) (days : ℕ → Bool) (z : Bytes)
    → 0 < f
    → length z ≤ f
    → length z ≤ suc n
    → Leaves (λ r. r.1) n (parse_days f days z)
unfolding parse_days starts_with
parse_days-Leaves zero n days z p h k = absurd (omega arith)
parse_days-Leaves (suc f) n days z p h k = elim (Option-cases (find_day day_names z)) [
  | inl b ↦ rw b tt
  | inr ((first, count, z'), b) ↦
      let s = find_day-Named day_names z (first, count, z') (omega arith) b in
      rw b (elim (Bool-cases (is_alpha (head_char z'))) [
        | inl a ↦
            let l = alpha-length z' a in
            rw a (
              parse_days-Leaves f n (set_days first count days) z' (omega arith) (omega arith)
                (omega arith))
        | inr a ↦ rw a (omega arith)
      ])
]

parse_number-le : (n : ℕ) (z : Bytes) → length (parse_number n z).1 ≤ length z
unfolding parse_number
parse_number-le n [] = omega arith
parse_number-le n (c ∷ z) = ground (arith, parse_number-le (n * 10 + (c - b'0')) z)

parse_end-Leaves : (s n : ℕ) (z : Bytes) → length z ≤ n → Leaves (λ r. r.2) n (parse_end s z)
unfolding parse_end
parse_end-Leaves s n [] h = tt
parse_end-Leaves s n (c ∷ []) h = tt
parse_end-Leaves s n (c ∷ d ∷ z) h = ground (arith, parse_number-le 0 (d ∷ z))

parse_hours-Leaves : (n : ℕ) (z : Bytes) → length z ≤ n → Leaves (λ r. r.2) n (parse_hours z)
unfolding parse_hours
parse_hours-Leaves n z h = elim (Bool-cases (is_digit (head_char z))) [
  | inl b ↦ rw b (
      parse_end-Leaves (parse_number 0 z).0 n (parse_number 0 z).1
        (omega (arith, parse_number-le 0 z)))
  | inr b ↦ rw b h
]

-- The rule for `>>=`.
Leaves-then :
    {A B : Type 0} (rest : A → Bytes) (n : ℕ) (p : Parsed A) (f : A → Parsed B)
    → Leaves rest n p
    → ((a : A) → length (rest a) ≤ n → f a ≢ beyond)
    → (p >>= f) ≢ beyond
Leaves-then rest n (parsed a) f h k = k a h
Leaves-then rest n syntax_error f h k = λ e. cc
Leaves-then rest n too_large f h k = λ e. cc
Leaves-then rest n beyond f h k = elim h [ ]

skip_mark-le : (z : Bytes) → length (skip_mark z) ≤ length z
skip_mark-le [] = omega arith
skip_mark-le (c ∷ z) = ground arith

head-length : (z : Bytes) → (head_char z == 0) ≡ false → 0 < length z
head-length [] h = cc
head-length (c ∷ z) h = omega arith

-- The loop of `_uuconf_itime_parse` through a time string, with more rounds than the string has
-- characters, does not run out of rounds, nor do the loops in it for the days and the numbers.
pub parse_spans-ne-beyond :
    (cmp : Compare) (val retry f : ℕ) (z : Bytes) (l : List Span)
    → length z < f
    → parse_spans cmp val retry f z l ≢ beyond
unfolding parse_spans
parse_spans-ne-beyond cmp val retry zero z l h = absurd (omega arith)
parse_spans-ne-beyond cmp val retry (suc f) [] l h = λ e. cc
parse_spans-ne-beyond cmp val retry (suc f) (c ∷ z) l h =
    let z₁ = skip_mark (c ∷ z) in
    let m = skip_mark-le (c ∷ z) in
    elim (Bool-cases (head_char z₁ == 0 || head_char z₁ == b';')) [
      | inl b ↦ rw (b, parse_spans) (λ e. cc)
      | inr b ↦
          let p = head-length z₁ (ground arith) in
          let n = length z₁ - 1 in
          rw (b, parse_spans)
            (Leaves-then (λ r. r.1) n (parse_days (length z₁) (λ d. false) z₁) _
              (parse_days-Leaves (length z₁) n (λ d. false) z₁ p (omega arith) (omega arith))
              (λ (days, z₂) k.
                Leaves-then (λ r. r.2) n (parse_hours z₂) _ (parse_hours-Leaves n z₂ k)
                  (λ (s, e, z₃) k'.
                    parse_spans-ne-beyond cmp val retry f z₃ (add_days cmp val retry 7 days s e l)
                      (omega arith))))
    ]
