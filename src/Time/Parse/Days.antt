-- ===== src/Time/Parse/Days.antt =====
-- The days and hours of a time string, as they are added to the list.
use Prim.Native.Nat.{Ordering}
use taylor_uucp.Base.{
  ℕ, zero, suc, ◌+◌, ◌*◌, ◌/◌, ◌%◌, ◌≤◌, ◌<◌, ◌≡◌, refl, inl, inr, Bool, ◌&&◌, ◌||◌, List, All, ltb,
  leb, ◌==◌, Bool-cases, if◌then◌else◌, arith,
}
use taylor_uucp.Time.{Span, Compare, add_span}
use taylor_uucp.Time.Parse.{add_day, add_days}
use taylor_uucp.Time.Values.{Values-add_span}
use taylor_uucp.Time.Week.{IsWeek, value_at, overridden, Tie, add_span-Adds}

-- Whether the hours from `s` to `e`, which may go round midnight, contain the minute `t` of a day.
abbrev pub in_hours : ℕ → ℕ → ℕ → Bool
in_hours s e t = if ltb s e then leb s t && ltb t e else ltb t e || leb s t

-- Whether a day is set, among the days before `suc n`.
set-suc :
    (days : ℕ → Bool) (n d : ℕ) (h : Bool)
    → (ltb d (suc n) && days d && h) ≡ (ltb d n && days d && h || d == n && days n && h)
set-suc days n d h = elim (Bool-cases (d == n)) [
  | inl b ↦ let e : d ≡ n = ground arith in rw e (ground arith)
  | inr b ↦ ground arith
]

module _ (cmp : Compare) (val retry : ℕ) where
  -- The list is in order, its values that compare as equal to the new one are equal to it, and what
  -- applies at a minute is what applied in `l`, with the new value put over it where `set` says.
  pub record Scheduled (l result : List Span) (set : ℕ → Bool) : Type 0 where
    pub week : IsWeek 0 result
    pub ties : All (Tie cmp val retry) result
    pub value :
        (m : ℕ)
        → value_at m result ≡ (if set m then overridden cmp val (value_at m l) else value_at m l)

module _ (cmp : Compare) (val retry : ℕ) (s e : ℕ) (hs : s < 24 * 60) (he : e ≤ 24 * 60)
    (pos : 0 < e) where
  keep_ties :
      (a b : ℕ) (l : List Span)
      → All (Tie cmp val retry) l
      → All (Tie cmp val retry) (add_span cmp val retry a b l)
  keep_ties = Values-add_span (λ v. cmp val v ≡ Ordering.eq → val ≡ v) cmp val retry (λ h. refl)

  add_day-Scheduled :
      (day : ℕ) (l : List Span)
      → IsWeek 0 l
      → All (Tie cmp val retry) l
      → Scheduled cmp val retry l
          (add_day cmp val retry day s e l)
          (λ m. m / (24 * 60) == day && in_hours s e (m % (24 * 60)))
  unfolding add_day
  add_day-Scheduled day l w t = elim (Bool-cases (ltb s e)) [
    | inl b ↦
        let m₀ = day * 24 * 60 in
        let a =
          add_span-Adds cmp val retry 0 (m₀ + s) (m₀ + e) l w (omega arith) (ground arith) t in
        rw b (record {
          week = a.week;
          ties = keep_ties (m₀ + s) (m₀ + e) l t;
          value = λ m. ground (arith, a.value m);
        })
    | inr b ↦
        let m₀ = day * 24 * 60 in
        let a = add_span-Adds cmp val retry 0 m₀ (m₀ + e) l w (omega arith) (omega arith) t in
        let t' = keep_ties m₀ (m₀ + e) l t in
        let a' =
          add_span-Adds cmp val retry 0 (m₀ + s) (m₀ + 24 * 60) _ a.week (omega arith) (omega arith)
            t' in
        rw b (record {
          week = a'.week;
          ties = keep_ties (m₀ + s) (m₀ + 24 * 60) _ t';
          value = λ m. ground (arith, a.value m, a'.value m);
        })
  ]

  -- For hours from `s` before midnight to `e`, which is after 0000 and at most 2400, and spans in
  -- order whose values compare as equal to the new one only if they are equal: adding the hours
  -- for each selected day before `n` leaves the spans in order, and the new value is put over the
  -- old one at exactly the minutes of the selected days that are within the hours, where hours
  -- with `e` up to `s` go round midnight within the day.
  pub add_days-Scheduled :
      (n : ℕ) (days : ℕ → Bool) (l : List Span)
      → IsWeek 0 l
      → All (Tie cmp val retry) l
      → Scheduled cmp val retry l
          (add_days cmp val retry n days s e l)
          (λ m. ltb (m / (24 * 60)) n && days (m / (24 * 60)) && in_hours s e (m % (24 * 60)))
  unfolding add_days
  add_days-Scheduled zero days l w t = record { week = w; ties = t; value = λ m. ground arith }
  add_days-Scheduled (suc n) days l w t =
      let a = add_days-Scheduled n days l w t in
      elim (Bool-cases (days n)) [
        | inl b ↦
            let a' = add_day-Scheduled n _ a.week a.ties in
            rw b (record {
              week = a'.week;
              ties = a'.ties;
              value = λ m. ground (
                arith,
                a.value m,
                a'.value m,
                set-suc days n (m / (24 * 60)) (in_hours s e (m % (24 * 60))),
              );
            })
        | inr b ↦ rw b (record {
          week = a.week;
          ties = a.ties;
          value = λ m.
              ground
                (arith, a.value m, set-suc days n (m / (24 * 60)) (in_hours s e (m % (24 * 60))));
        })
      ]
