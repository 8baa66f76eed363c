-- ===== src/Tests/Time.antt =====
-- uuconf/time.c, uuconf/grdcmp.c and time.c on a week with a few spans.
use Prim.Native.Nat.{compare}
use taylor_uucp.Base.{
  ℕ, ◌+◌, ◌*◌, ◌/◌, ◌%◌, ◌≡◌, ◌≢◌, refl, some, List, [], ◌∷◌, codes, length, ◌==◌, ltb, ◌&&◌, arith,
}
use taylor_uucp.Base.Ctype.{starts_with, same_letters}
use taylor_uucp.Time.{Span, add_span, time_match, max_size_ever}
use taylor_uucp.Time.Grade.{grade_cmp, rank, grade_cmp-rank}
use taylor_uucp.Time.Match.{value_of, ends_at, first_of, time_match_lem}
use taylor_uucp.Time.Parse.{beyond, add_day, add_days, parse_spans, itime_parse, parsed}
use taylor_uucp.Time.Parse.Days.{Scheduled, in_hours, add_days-Scheduled}
use taylor_uucp.Time.Parse.Midnight.{midnight_matches}
use taylor_uucp.Time.Parse.Total.{parse_spans-ne-beyond}
use taylor_uucp.Time.Size.{IsLimit, max_size_ever_lem}
use taylor_uucp.Time.Week.{value_at, Adds, add_span-Adds}

abbrev span : ℕ → ℕ → ℕ → Span
span s e v = record { start = s; finish = e; ival = v; retry = 0 }

abbrev week : List Span
week = span 30 100 5 ∷ span 100 200 7 ∷ span 250 300 5 ∷ []

-- The new value goes before 7 and after 4, and is equal to 5.
add_span_example : Adds compare 5 9 0 60 280 week (add_span compare 5 9 60 280 week)
add_span_example =
    add_span-Adds compare 5 9 0 60 280 week (omega arith) (omega arith) (omega arith)
      ((λ h. refl), ((λ h. cc), ((λ h. refl), tt)))

add_days_example :
    Scheduled compare 4 0 week
      (add_days compare 4 0 7 (λ d. d == 1) 1380 60 week)
      (λ m. ltb (m / (24 * 60)) 7 && (m / (24 * 60) == 1) && in_hours 1380 60 (m % (24 * 60)))
add_days_example =
    add_days-Scheduled compare 4 0 1380 60 (omega arith) (omega arith) (omega arith) 7 (λ d. d == 1)
      week (omega arith) ((λ h. cc), ((λ h. cc), ((λ h. cc), tt)))

time_match_example :
    value_of (time_match 100 week) ≡ first_of (ends_at 100 week) (value_at 100 week)
time_match_example = time_match_lem 0 100 week (omega arith)

-- A week without a gap of an hour.
abbrev full : List Span
full = span 0 5000 3 ∷ span 5020 10080 9 ∷ []

full_limit : max_size_ever full ≡ some 9
unfolding max_size_ever
full_limit = refl

max_size_ever_example : IsLimit 0 9 full
max_size_ever_example = max_size_ever_lem full 9 (omega arith) full_limit

parse_spans_example :
    parse_spans compare 5 0 (length (codes "Wk2305-0855,Sa,Su") + 1) (codes "Wk2305-0855,Sa,Su") []
    ≢ beyond
parse_spans_example =
    parse_spans-ne-beyond compare 5 0 (length (codes "Wk2305-0855,Sa,Su") + 1)
      (codes "Wk2305-0855,Sa,Su") [] (omega arith)

midnight_example : time_match (1 * 24 * 60) (add_day compare 5 3 1 1380 0 []) ≡ some (5, 3)
midnight_example = midnight_matches compare 5 3 1 1380 (omega arith) (omega arith)

grade_cmp_example : grade_cmp b'Z' b'a' ≡ compare (rank b'Z') (rank b'a')
grade_cmp_example = grade_cmp-rank b'Z' b'a' refl refl

-- A time string over two days.
parse_two_days :
    itime_parse 1 [] (codes "Su2305-0855,Mo") compare 5 0 []
    ≡ parsed (span 0 535 5 ∷ span 1385 2880 5 ∷ [])
unfolding itime_parse add_span starts_with same_letters
parse_two_days = refl
