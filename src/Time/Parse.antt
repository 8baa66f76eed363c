-- ===== src/Time/Parse.antt =====
-- `_uuconf_itime_parse`: a time string, such as `Wk2305-0855,Sa,Su`, added to a list of spans.
pub mod Days
pub mod Midnight
pub mod Total
use taylor_uucp.Base.{
  ℕ, zero, suc, ◌+◌, ◌-◌, ◌*◌, ◌/◌, ◌%◌, ◌^◌, Bool, true, false, ◌&&◌, ◌||◌, not, Option, none,
  some, List, [], ◌∷◌, Bytes, codes, length, drop, ltb, leb, ◌==◌, ◌!=◌, if◌then◌else◌,
}
use taylor_uucp.Base.Ctype.{is_digit, is_alpha, same_letters, starts_with, head_char}
use taylor_uucp.Time.{Span, Compare, add_span}

-- UUCONF_SUCCESS with a value, UUCONF_SYNTAX_ERROR, an hour that an `int` does not hold, or a loop
-- beyond its rounds, such as that of timetables that name each other.
pub data Parsed (A : Type 0) : Type 0 where
  parsed : A → Parsed A
  syntax_error : Parsed A
  too_large : Parsed A
  beyond : Parsed A

infixl 5 ◌>>=◌
abbrev pub ◌>>=◌ : {A B : Type 0} → Parsed A → (A → Parsed B) → Parsed B
parsed a >>= f = f a
syntax_error >>= f = syntax_error
too_large >>= f = too_large
beyond >>= f = beyond

-- `asTdays`: a name, the first day and the number of days.
abbrev pub day_names : List (Bytes × ℕ × ℕ)
day_names =
    (codes "any", 0, 7)
    ∷ (codes "wk", 1, 5)
    ∷ (codes "su", 0, 1)
    ∷ (codes "mo", 1, 1)
    ∷ (codes "tu", 2, 1)
    ∷ (codes "we", 3, 1)
    ∷ (codes "th", 4, 1)
    ∷ (codes "fr", 5, 1)
    ∷ (codes "sa", 6, 1)
    ∷ (codes "never", 0, 0)
    ∷ (codes "none", 0, 0)
    ∷ []

-- The first name that the string starts with: its days, and the rest of the string.
pub find_day : List (Bytes × ℕ × ℕ) → Bytes → Option (ℕ × ℕ × Bytes)
find_day [] z = none
find_day ((name, first, count) ∷ names) z =
    let rest = find_day names z in
    if starts_with z name then some (first, count, drop (length name) z) else rest

abbrev pub set_days : ℕ → ℕ → (ℕ → Bool) → ℕ → Bool
set_days first count days d = leb first d && ltb d (first + count) || days d

-- The `do` loop that gets the days.
pub parse_days : ℕ → (ℕ → Bool) → Bytes → Parsed ((ℕ → Bool) × Bytes)
unfolding find_day
parse_days zero days z = beyond
parse_days (suc f) days z = elim (find_day day_names z) [
  | none ↦ syntax_error
  | some (first, count, z') ↦
      let days' = set_days first count days in
      let rest = parse_days f days' z' in
      if is_alpha (head_char z') then rest else parsed (days', z')
]

-- `strtol` in base ten, at a digit: the number, to which `n` has come, and what follows it.
pub parse_number : ℕ → Bytes → ℕ × Bytes
parse_number n [] = (n, [])
parse_number n (c ∷ z) =
    let rest = parse_number (n * 10 + (c - b'0')) z in if is_digit c then rest else (n, c ∷ z)

abbrev pub minutes : ℕ → ℕ
minutes n = n / 100 * 60 + n % 100

abbrev pub fits_int : ℕ → Bool
fits_int n = ltb n (2 ^ 31)

-- The hours: the two numbers that were read, and what follows.
pub parse_end : ℕ → Bytes → Parsed (ℕ × ℕ × Bytes)
unfolding parse_number
parse_end s (c ∷ d ∷ z) =
    if c != b'-' || not (is_digit d)
    then syntax_error
    else (let (e, rest) = parse_number 0 (d ∷ z) in
        if fits_int s && fits_int e then parsed (minutes s, minutes e, rest) else too_large)
parse_end s z = syntax_error

pub parse_hours : Bytes → Parsed (ℕ × ℕ × Bytes)
unfolding parse_end
parse_hours z =
    if not (is_digit (head_char z))
    then parsed (0, 24 * 60, z)
    else (let (s, z') = parse_number 0 z in parse_end s z')

-- `,` or `|` before the next time.
abbrev pub skip_mark : Bytes → Bytes
skip_mark [] = []
skip_mark (c ∷ z) = if c == b',' || c == b'|' then z else c ∷ z

module _ (cmp : Compare) (val retry : ℕ) where
  -- One day. The hours may go round midnight.
  pub add_day : ℕ → ℕ → ℕ → List Span → List Span
  add_day day s e l =
      let minute = day * 24 * 60 in
      if ltb s e
      then add_span cmp val retry (minute + s) (minute + e) l
      else add_span cmp val retry (minute + s) (minute + 24 * 60)
          (add_span cmp val retry minute (minute + e) l)

  -- The days before `n`, of those that are set.
  pub add_days : ℕ → (ℕ → Bool) → ℕ → ℕ → List Span → List Span
  unfolding add_day
  add_days zero days s e l = l
  add_days (suc n) days s e l =
      let earlier = add_days n days s e l in if days n then add_day n s e earlier else earlier

  -- The loop through the time string, within a number of rounds.
  pub parse_spans : ℕ → Bytes → List Span → Parsed (List Span)
  unfolding parse_days parse_hours add_days
  parse_spans zero z l = beyond
  parse_spans (suc f) [] l = parsed l
  parse_spans (suc f) (c ∷ z) l =
      let z₁ = skip_mark (c ∷ z) in
      elim (head_char z₁ == 0 || head_char z₁ == b';') [
        | true ↦ parsed l
        | false ↦ parse_days (length z₁) (λ d. false) z₁ >>= λ (days, z₂).
            parse_hours z₂ >>= λ (s, e, z₃). parse_spans f z₃ (add_days 7 days s e l)
      ]

-- The last of the timetables with this name.
pub find_table : List (Bytes × Bytes) → Bytes → Option Bytes
find_table [] z = none
find_table ((name, value) ∷ tables) z = elim (find_table tables z) [
  | some v ↦ some v
  | none ↦ if same_letters z name then some value else none
]

-- The loop that expands timetables, within a number of rounds.
pub expand : ℕ → List (Bytes × Bytes) → Bytes → Parsed Bytes
unfolding find_table
expand zero tables z = beyond
expand (suc f) tables z = elim (find_table tables z) [
  | none ↦ parsed z
  | some value ↦ expand f tables value
]

-- `_uuconf_itime_parse`, with the rounds for the timetables.
unfoldable pub itime_parse :
    ℕ → List (Bytes × Bytes) → Bytes → Compare → ℕ → ℕ → List Span → Parsed (List Span)
unfolding expand parse_spans
itime_parse rounds tables z cmp val retry l =
    expand rounds tables z >>= λ z'. parse_spans cmp val retry (length z' + 1) z' l
