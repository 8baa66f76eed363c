-- ===== src/Time/Size.antt =====
-- `cmax_size_ever`, where it finds a limit.
use taylor_uucp.Base.{
  ℕ, ◌+◌, ◌*◌, ◌≤◌, ◌<◌, ◌≡◌, inl, inr, Option, none, some, List, [], ◌∷◌, ltb, leb, Bool-cases,
  arith,
}
use taylor_uucp.Time.{Span, larger, max_loop, max_size_ever}
use taylor_uucp.Time.Week.{IsWeek, value_at}

abbrev AtMost : Option ℕ → ℕ → Type 0
AtMost none n = Unit {0}
AtMost (some k) n = k ≤ n

-- The last minute from which on an hour is looked for.
abbrev pub last_hour : ℕ
last_hour = 6 * 24 * 60 + 23 * 60

-- The limit is the largest value, and a value applies within each hour that does not start
-- before `low`.
pub record IsLimit (low n : ℕ) (qs : List Span) : Type 0 where
  pub largest : (m v : ℕ) → value_at m qs ≡ some v → v ≤ n
  pub no_gap :
      (m : ℕ)
      → low ≤ m
      → m ≤ last_hour
      → (k : ℕ) × (v : ℕ) × (m ≤ k) × (k < m + 60) × (value_at k qs ≡ some v)

IsLimit-cons :
    (low n : ℕ) (q : Span) (qs : List Span)
    → IsWeek low (q ∷ qs)
    → q.start < low + 60
    → q.ival ≤ n
    → IsLimit q.finish n qs
    → IsLimit low n (q ∷ qs)
IsLimit-cons low n q qs w h k l = record {
  largest = λ m v e. ground (arith, l.largest m v);
  no_gap = λ m a b. elim (Bool-cases (ltb m q.finish)) [
    | inl t ↦ elim (Bool-cases (leb q.start m)) [
      | inl t' ↦ (m, q.ival, omega arith, omega arith, ground arith)
      | inr t' ↦ (q.start, q.ival, ground arith, ground arith, ground arith)
    ]
    | inr t ↦ let (i, v, c, d, e) = l.no_gap m (ground arith) b in (i, v, c, d, ground arith)
  ];
}

AtMost-larger : (max : Option ℕ) (v n : ℕ) → larger max v ≤ n → AtMost max n × (v ≤ n)
AtMost-larger none v n h = (tt, h)
AtMost-larger (some k) v n h = ground arith

-- Something applies within each hour if the first span starts within an hour of `low`.
max_loop-IsLimit :
    (low : ℕ) (max : Option ℕ) (q : Span) (qs : List Span) (n : ℕ)
    → IsWeek low (q ∷ qs)
    → q.start < low + 60
    → max_loop max (q ∷ qs) ≡ some n
    → AtMost max n × IsLimit low n (q ∷ qs)
unfolding max_loop
max_loop-IsLimit low max q [] n w h e =
    let (a, b) = AtMost-larger max q.ival n (ground arith) in
    (
      a,
      IsLimit-cons low n q [] w h b
          (record { largest = λ m v e. cc; no_gap = λ m c d. absurd (ground arith) }),
    )
max_loop-IsLimit low max q (r ∷ qs) n w h e =
    let l =
      max_loop-IsLimit q.finish (some (larger max q.ival)) r qs n w.2 (ground arith)
        (ground arith) in
    let (a, b) = AtMost-larger max q.ival n l.0 in (a, IsLimit-cons low n q (r ∷ qs) w h b l.1)

-- If `cmax_size_ever` finds a limit for spans that are in order and do not overlap, then no value
-- that applies at any minute is above the limit, and from each minute up to 23:00 on Saturday
-- some value applies within the hour.
pub max_size_ever_lem :
    (qs : List Span) (n : ℕ) → IsWeek 0 qs → max_size_ever qs ≡ some n → IsLimit 0 n qs
unfolding max_size_ever
max_size_ever_lem [] n w e = cc
max_size_ever_lem (q ∷ qs) n w e =
    (max_loop-IsLimit 0 none q qs n w (ground arith) (ground arith)).1
