-- ===== src/Time.antt =====
-- uuconf/time.c and time.c: the list of the times of a week at which a system may be called or
-- files transferred, and what applies at a time.

pub mod Grade
pub mod Match
pub mod Parse
pub mod Size
pub mod Values
pub mod Week
use Prim.Native.Nat.{compare, Ordering}
use taylor_uucp.Base.{
  ℕ, suc, ◌+◌, ◌*◌, Bool, true, false, ◌&&◌, Option, none, some, List, [], ◌∷◌, ◌++◌, ltb, leb,
  ◌==◌, if◌then◌else◌,
}

-- `struct uuconf_timespan`, without the pointer to the next.
pub record Span : Type 0 where
  pub start : ℕ
  pub finish : ℕ
  pub ival : ℕ
  pub retry : ℕ

-- A `picmp`: what its result says of the order in which two values apply.
abbrev pub Compare : Type 0
Compare = ℕ → ℕ → Ordering

abbrev pub is_eq : Ordering → Bool
is_eq Ordering.eq = true
is_eq _ = false

-- `pq->uuconf_qnext == NULL || iend <= pq->uuconf_qnext->uuconf_istart`.
abbrev pub before_next : ℕ → List Span → Bool
before_next finish [] = true
before_next finish (q ∷ qs) = leb finish q.start

-- `uuconf_istart` of the next span, where there is one.
abbrev pub next_start : ℕ → List Span → ℕ
next_start default [] = default
next_start default (q ∷ qs) = q.start

-- The part of `q` up to the minute `m`, unless there is none.
abbrev pub part_before : Span → ℕ → List Span
part_before q m = if ltb q.start m then record q { finish = m } ∷ [] else []

module _ (cmp : Compare) (val retry : ℕ) where
  -- A span of the new value: `itnew`.
  abbrev pub new_span : ℕ → ℕ → Span
  new_span s e = record { start = s; finish = e; ival = val; retry = retry }

  -- The spans are the same but for the time.
  abbrev pub joins : Span → Bool
  joins q = retry == q.retry && is_eq (cmp val q.ival)

  -- The span `q`, which has the new value, goes on to `e`; but if that is beyond the start of the
  -- next span it ends there, and `rest` is what adding the new span from there gives.
  pub extend : Span → ℕ → List Span → List Span → List Span
  extend q e [] rest = record q { finish = e } ∷ []
  extend q e (n ∷ qs) rest =
      if leb e n.start
      then record q { finish = e } ∷ n ∷ qs
      else record q { finish = n.start } ∷ rest

  -- The new span ends before the span `q`.
  pub add_before : ℕ → ℕ → Span → List Span → List Span
  add_before s e q qs =
      if e == q.start && joins q then record q { start = s } ∷ qs else new_span s e ∷ q ∷ qs

  -- The new span starts behind `q`.
  pub add_after : ℕ → ℕ → Span → List Span → List Span → List Span
  add_after s e q qs from_here =
      if q.finish == s && joins q && before_next e qs
      then record q { finish = e } ∷ qs
      else q ∷ from_here

  -- The two overlap, and this is how their values compare.
  pub add_overlap : Ordering → ℕ → ℕ → Span → List Span → List Span → List Span → List Span
  unfolding extend
  add_overlap Ordering.eq s e q qs from_next from_end =
      let low = if ltb s q.start then record q { start = s } else q in
      if leb e q.finish then low ∷ qs else extend low e qs from_next
  add_overlap Ordering.lt s e q qs from_next from_end =
      part_before q s
      ++ (if ltb e q.finish
          then new_span s e ∷ record q { start = e } ∷ qs
          else extend (new_span s e) e qs from_next)
  add_overlap Ordering.gt s e q qs from_next from_end =
      part_before (new_span s e) q.start ++ (if leb e q.finish then q ∷ qs else q ∷ from_end)

  -- `itadd_span`. Where the final part of `q` is kept it is the next span, and starts at `e`.
  unfoldable pub add_span : ℕ → ℕ → List Span → List Span
  unfolding add_before add_after add_overlap
  add_span s e [] = new_span s e ∷ []
  add_span s e (q ∷ qs) =
      let from_here = add_span s e qs in
      let from_next = add_span (next_start e qs) e qs in
      let from_end = add_span q.finish e qs in
      if leb e q.start
      then add_before s e q qs
      else if leb q.finish s
      then add_after s e q qs from_here
      else add_overlap (cmp val q.ival) s e q qs from_next from_end

-- `ftimespan_match` at the minute `m` of the week: value and retry time of the span that matches.
pub time_match : ℕ → List Span → Option (ℕ × ℕ)
time_match m [] = none
time_match m (q ∷ qs) =
    let rest = time_match m qs in
    if leb q.start m && leb m q.finish then some (q.ival, q.retry) else rest

-- `imax` after a span.
abbrev pub larger : Option ℕ → ℕ → ℕ
larger none v = v
larger (some k) v = if ltb k v then v else k

-- A gap of an hour behind a span.
abbrev pub gap : Span → List Span → Bool
gap q [] = leb q.finish (6 * 24 * 60 + 23 * 60)
gap q (r ∷ qs) = leb (q.finish + 60) r.start

-- The loop of `cmax_size_ever`, with `imax`, whose -1 is `none`. A return of -1 is `none` too.
pub max_loop : Option ℕ → List Span → Option ℕ
max_loop max [] = max
max_loop max (q ∷ qs) =
    let rest = max_loop (some (larger max q.ival)) qs in if gap q qs then none else rest

-- `cmax_size_ever`.
unfoldable pub max_size_ever : List Span → Option ℕ
unfolding max_loop
max_size_ever [] = none
max_size_ever (q ∷ qs) = if leb 60 q.start then none else max_loop none (q ∷ qs)
