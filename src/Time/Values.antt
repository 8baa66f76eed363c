-- ===== src/Time/Values.antt =====
-- `itadd_span` keeps the values that are in the list, and adds none but the new one.
use Prim.Native.Nat.{Ordering}
use taylor_uucp.Base.{ℕ, List, [], ◌∷◌, All, leb, inl, inr, Bool-cases, ltb, if◌then◌else◌, arith}
use taylor_uucp.Time.{
  Span, Compare, add_span, add_before, add_after, add_overlap, extend, next_start,
}

module _ (P : ℕ → Type 0) (cmp : Compare) (val retry : ℕ) (new : P val) where
  abbrev pub Values : List Span → Type 0
  Values = All (λ q. P q.ival)

  Values-extend :
      (q : Span) (e : ℕ) (qs rest : List Span)
      → P q.ival
      → Values qs
      → Values rest
      → Values (extend cmp val retry q e qs rest)
  unfolding extend
  Values-extend q e [] rest p h k = (p, tt)
  Values-extend q e (n ∷ qs) rest p h k = ground arith

  Values-add_overlap :
      (o : Ordering) (s e : ℕ) (q : Span) (qs from_next from_end : List Span)
      → Values (q ∷ qs)
      → Values from_next
      → Values from_end
      → Values (add_overlap cmp val retry o s e q qs from_next from_end)
  unfolding add_overlap
  Values-add_overlap Ordering.eq s e q qs from_next from_end h k l =
      let low = if ltb s q.start then record q { start = s } else q in
      ground (arith, Values-extend low e qs from_next)
  Values-add_overlap Ordering.lt s e q qs from_next from_end h k l =
      let cur : Span = record { start = s; finish = e; ival = val; retry = retry } in
      ground (arith, Values-extend cur e qs from_next)
  Values-add_overlap Ordering.gt s e q qs from_next from_end h k l = ground arith

  pub Values-add_span :
      (s e : ℕ) (qs : List Span) → Values qs → Values (add_span cmp val retry s e qs)
  unfolding add_span add_before add_after
  Values-add_span s e [] h = (new, tt)
  Values-add_span s e (q ∷ qs) h = elim (Bool-cases (leb e q.start)) [
    | inl b ↦ rw b (ground arith)
    | inr b ↦ rw b (elim (Bool-cases (leb q.finish s)) [
      | inl b' ↦ rw b' (ground (arith, Values-add_span s e qs))
      | inr b' ↦ rw b' (
          Values-add_overlap (cmp val q.ival) s e q qs _ _ h
            (Values-add_span (next_start e qs) e qs h.1) (Values-add_span q.finish e qs h.1))
    ])
  ]
