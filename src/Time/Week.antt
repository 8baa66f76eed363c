-- ===== src/Time/Week.antt =====
-- `itadd_span`: the list stays in order, and at each minute of the week the value that takes
-- precedence applies.
use Prim.Native.Nat.{Ordering}
use taylor_uucp.Base.{
  ℕ, ◌≤◌, ◌<◌, ◌≡◌, refl, true, ◌&&◌, Option, none, some, List, [], ◌∷◌, inl, inr, All, Bool-cases,
  ltb, leb, leb→le, ◌==◌, if◌then◌else◌, arith,
}
use taylor_uucp.Time.{
  Span, Compare, add_span, add_before, add_after, add_overlap, extend, joins, before_next,
  next_start, new_span,
}

-- The spans are not empty, in order, do not overlap, and start at `low` or later.
abbrev pub IsWeek : ℕ → List Span → Type 0
IsWeek low [] = Unit {0}
IsWeek low (q ∷ qs) = (low ≤ q.start) × (q.start < q.finish) × IsWeek q.finish qs

-- What applies at a minute: the value of the span that contains it.
abbrev pub value_at : ℕ → List Span → Option ℕ
value_at m [] = none
value_at m (q ∷ qs) =
    let rest = value_at m qs in if leb q.start m && ltb m q.finish then some q.ival else rest

value_at-none : (low m : ℕ) (qs : List Span) → IsWeek low qs → m < low → value_at m qs ≡ none
value_at-none low m [] w h = refl
value_at-none low m (q ∷ qs) w h = ground (arith, value_at-none q.finish m qs w.2)

IsWeek-lower : (low low' : ℕ) (qs : List Span) → low' ≤ low → IsWeek low qs → IsWeek low' qs
IsWeek-lower low low' [] h w = tt
IsWeek-lower low low' (q ∷ qs) h w = (omega arith, w.1, w.2)

IsWeek-next : (low e : ℕ) (qs : List Span) → IsWeek low qs → IsWeek (next_start e qs) qs
IsWeek-next low e [] w = tt
IsWeek-next low e (q ∷ qs) w = (omega arith, w.1, w.2)

-- What a new value leaves of what applied before: it applies where nothing did, and where it takes
-- precedence.
abbrev pub overridden : Compare → ℕ → Option ℕ → Option ℕ
overridden cmp val none = some val
overridden cmp val (some v) = elim (cmp val v) [ Ordering.lt ↦ some val | _ ↦ some v ]

abbrev pub applied : Compare → ℕ → ℕ → ℕ → ℕ → Option ℕ → Option ℕ
applied cmp val s e m o = if leb s m && ltb m e then overridden cmp val o else o

module _ (cmp : Compare) (val retry : ℕ) where
  -- A value that compares as equal is equal.
  abbrev pub Tie : Span → Type 0
  Tie q = cmp val q.ival ≡ Ordering.eq → val ≡ q.ival

  -- What adding the value from `s` to `e` does.
  pub record Adds (low s e : ℕ) (qs result : List Span) : Type 0 where
    pub week : IsWeek low result
    pub value : (m : ℕ) → value_at m result ≡ applied cmp val s e m (value_at m qs)

  -- A span of the value up to `e` or the next span.
  extend-Adds :
      (low f e : ℕ) (q : Span) (qs rest : List Span)
      → low ≤ q.start
      → q.start < f
      → f ≤ e
      → q.ival ≡ val
      → IsWeek f qs
      → (next_start e qs < e → Adds (next_start e qs) (next_start e qs) e qs rest)
      → Adds low q.start e qs (extend cmp val retry q e qs rest)
  unfolding extend
  extend-Adds low f e q [] rest h k l v w r = record {
    week = ground arith;
    value = λ m. ground arith;
  }
  extend-Adds low f e q (n ∷ qs) rest h k l v w r = elim (Bool-cases (leb e n.start)) [
    | inl b ↦ rw b (record {
      week = ground arith;
      value =
          λ m. ground (arith, value_at-none e m qs (IsWeek-lower n.finish e qs (ground arith) w.2));
    })
    | inr b ↦
        let a : Adds n.start n.start e (n ∷ qs) rest = r (ground arith) in
        rw b (record {
          week = (h, ground arith, a.week);
          value = λ m. ground (arith, a.value m, value_at-none n.finish m qs w.2);
        })
  ]

  -- The conditions of `add_after` for a longer `q`.
  after_tests :
      (s e : ℕ) (q : Span) (qs : List Span) (f : ℕ)
      → Tie q
      → (q.finish == s && joins cmp val retry q && before_next e qs) ≡ true
      → IsWeek f qs
      → (q.finish ≡ s) × (q.ival ≡ val) × IsWeek e qs
  after_tests s e q [] f tie b w = ground (arith, tie)
  after_tests s e q (n ∷ qs) f tie b w = ground (arith, tie)

  module _ (low s e : ℕ) (q : Span) (qs : List Span) (w : IsWeek low (q ∷ qs)) (h : low ≤ s)
      (l : s < e) (tie : Tie q) where
    add_before-Adds : e ≤ q.start → Adds low s e (q ∷ qs) (add_before cmp val retry s e q qs)
    unfolding add_before
    add_before-Adds k = record {
      week = ground arith;
      value = λ m. ground (arith, tie, value_at-none q.finish m qs w.2);
    }

    add_after-Adds :
        (rest : List Span)
        → q.finish ≤ s
        → Adds q.finish s e qs rest
        → Adds low s e (q ∷ qs) (add_after cmp val retry s e q qs rest)
    unfolding add_after
    add_after-Adds rest k a =
        elim (Bool-cases (q.finish == s && joins cmp val retry q && before_next e qs)) [
          | inl b ↦
              let (at, same, w') = after_tests s e q qs q.finish tie b w.2 in
              rw b (record {
                week = (w.0, omega arith, w');
                value = λ m. ground (arith, value_at-none e m qs w');
              })
          | inr b ↦
              rw b (record { week = (w.0, w.1, a.week); value = λ m. ground (arith, a.value m) })
        ]

    add_overlap-Adds :
        (from_next from_end : List Span)
        → q.start < e
        → s < q.finish
        → (next_start e qs < e → Adds (next_start e qs) (next_start e qs) e qs from_next)
        → (q.finish < e → Adds q.finish q.finish e qs from_end)
        → (o : Ordering) → cmp val q.ival ≡ o
        → Adds low s e (q ∷ qs) (add_overlap cmp val retry o s e q qs from_next from_end)
    unfolding add_overlap
    add_overlap-Adds from_next from_end k k' a a' Ordering.eq c =
        elim (Bool-cases (leb e q.finish)) [
          | inl b ↦ rw b (record {
            week = ground arith;
            value = λ m. ground (arith, tie, value_at-none q.finish m qs w.2);
          })
          | inr b ↦
              let low' = if ltb s q.start then record q { start = s } else q in
              let x =
                extend-Adds low q.finish e low' qs from_next (ground arith) (ground arith)
                  (ground arith) (ground (arith, tie)) w.2 a in
              rw b (record {
                week = x.week;
                value = λ m. ground (arith, x.value m, tie, value_at-none q.finish m qs w.2);
              })
        ]
    add_overlap-Adds from_next from_end k k' a a' Ordering.lt c =
        elim (Bool-cases (ltb e q.finish)) [
          | inl b ↦ rw b (record {
            week = ground arith;
            value = λ m. ground (arith, value_at-none q.finish m qs w.2);
          })
          | inr b ↦
              let x =
                extend-Adds s q.finish e (new_span cmp val retry s e) qs from_next (omega arith) k'
                  (ground arith) refl w.2 a in
              rw b (record {
                week = ground (arith, x.week);
                value = λ m. ground (arith, x.value m, value_at-none q.finish m qs w.2);
              })
        ]
    add_overlap-Adds from_next from_end k k' a a' Ordering.gt c =
        elim (Bool-cases (leb e q.finish)) [
          | inl b ↦ rw b (record {
            week = ground arith;
            value = λ m. ground (arith, value_at-none q.finish m qs w.2);
          })
          | inr b ↦
              let x = a' (ground arith) in
              rw b (record {
                week = ground (arith, x.week);
                value = λ m. ground (arith, x.value m, value_at-none q.finish m qs w.2);
              })
        ]

  -- For spans that are in order, not empty and do not overlap, a new span from `s` to a later
  -- `e`, and values that compare as equal only if they are equal: the list that `itadd_span`
  -- leaves is again in order, without overlap, and at each minute the value that applies is what
  -- the plain description says. That is the new value within the new span, if none applied there
  -- or it takes precedence, and the old value everywhere else.
  pub add_span-Adds :
      (low s e : ℕ) (qs : List Span)
      → IsWeek low qs
      → low ≤ s
      → s < e
      → All Tie qs
      → Adds low s e qs (add_span cmp val retry s e qs)
  unfolding add_span
  add_span-Adds low s e [] w h l t = record { week = (h, l, tt); value = λ m. ground arith }
  add_span-Adds low s e (q ∷ qs) w h l t = elim (Bool-cases (leb e q.start)) [
    | inl b ↦ rw b (add_before-Adds low s e q qs w h l t.0 (leb→le e q.start b))
    | inr b ↦ rw b (elim (Bool-cases (leb q.finish s)) [
      | inl b' ↦
          let k = leb→le q.finish s b' in
          rw b'
            (add_after-Adds low s e q qs w h l t.0 _ k (add_span-Adds q.finish s e qs w.2 k l t.1))
      | inr b' ↦ rw b' (
          add_overlap-Adds low s e q qs w h l t.0 _ _ (ground arith) (ground arith)
            (λ k.
              add_span-Adds (next_start e qs) (next_start e qs) e qs (IsWeek-next q.finish e qs w.2)
                (omega arith) k t.1)
            (λ k. add_span-Adds q.finish q.finish e qs w.2 (omega arith) k t.1) (cmp val q.ival)
            refl)
    ])
  ]
