-- ===== src/Time/Match.antt =====
-- `ftimespan_match`, which takes the last minute of a span to be in it.
use taylor_uucp.Base.{
  ℕ, ◌≤◌, ◌≡◌, refl, Option, none, some, List, [], ◌∷◌, ◌==◌, if◌then◌else◌, arith,
}
use taylor_uucp.Time.{Span, time_match}
use taylor_uucp.Time.Week.{IsWeek, value_at}

abbrev pub value_of : Option (ℕ × ℕ) → Option ℕ
value_of none = none
value_of (some (v, r)) = some v

-- The value of the span that ends at a minute.
abbrev pub ends_at : ℕ → List Span → Option ℕ
ends_at m [] = none
ends_at m (q ∷ qs) = let rest = ends_at m qs in if q.finish == m then some q.ival else rest

abbrev pub first_of : Option ℕ → Option ℕ → Option ℕ
first_of none o = o
first_of (some v) o = some v

ends_at-none : (low m : ℕ) (qs : List Span) → IsWeek low qs → m ≤ low → ends_at m qs ≡ none
ends_at-none low m [] w h = refl
ends_at-none low m (q ∷ qs) w h = ground (arith, ends_at-none q.finish m qs w.2)

-- For spans that are in order and do not overlap, `ftimespan_match` gives at a minute the value
-- of the span that ends at that minute, if there is one, and otherwise the value of the span that
-- contains it, if there is one.
pub time_match_lem :
    (low m : ℕ) (qs : List Span)
    → IsWeek low qs
    → value_of (time_match m qs) ≡ first_of (ends_at m qs) (value_at m qs)
unfolding time_match
time_match_lem low m [] w = refl
time_match_lem low m (q ∷ qs) w =
    ground (arith, time_match_lem q.finish m qs w.2, ends_at-none q.finish m qs w.2)
