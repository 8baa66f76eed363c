-- ===== src/J/RoundTrip.antt =====
-- A packet's data is restored by its indices.
use taylor_uucp.Base.{
  ℕ, zero, suc, ◌+◌, ◌*◌, ◌%◌, ◌≤◌, ◌<◌, ◌≡◌, refl, sym, ap, ◌∙◌, inl, inr, Bool, Option, none,
  some, [], ◌∷◌, AllBytes, Bytes, get_or, drop, length, Bool-cases, arith,
}
use mathlib.Core.Path.{subst}
use taylor_uucp.Base.Outcome.{Empty}
use taylor_uucp.Prot.{crecbuflen, update}
use taylor_uucp.J.{
  avoid_chars, imaxpacksize, is_avoided, change, put_index, get_index, undo, apply_index,
  index_loop, encode_from,
}
use taylor_uucp.J.Index.{change_lem, put_index_lem}
use taylor_uucp.J.Avoid.{
  Unprintable, avoid_chars-Unprintable, avoided-Unprintable, encode_from-avoided, encode_from-kept,
}
use taylor_uucp.J.Apply.{
  from, from-suc, Restored, Restored-cons, index_loop-step, index_loop-end, apply_index-Applied,
}

-- The result of the loop over the indices.
abbrev pub Decodes : (ℕ → ℕ) → ℕ → ℕ → Bytes → Option (ℕ → ℕ) → Type 0
Decodes m base i z (some m') = Restored m m' base i z
Decodes m base i z none = Empty

Decodes-cons :
    (m m₁ : ℕ → ℕ) (base i b : ℕ) (z : Bytes) (r : Option (ℕ → ℕ))
    → i + suc (length z) ≤ crecbuflen
    → ((k : ℕ) → k < i → m₁ ((base + k) % crecbuflen) ≡ m ((base + k) % crecbuflen))
    → m₁ ((base + i) % crecbuflen) ≡ b
    → Decodes m₁ base (suc i) z r
    → Decodes m base i (b ∷ z) r
Decodes-cons m m₁ base i b z (some m') h same at_i k =
    Restored-cons m m₁ m' base i b z h same at_i k
Decodes-cons m m₁ base i b z none h same at_i k = k

-- The data is at position `i` behind `base`, and the indices at `K`.
abbrev Loop : ℕ → ℕ → ℕ → ℕ → (ℕ → ℕ) → Bytes → Bytes × Bytes → Type 0
Loop f i K base m z r =
    K + length r.1 < crecbuflen
    → length r.1 < f
    → from m base i (length z) ≡ r.0
    → from m base K (length r.1) ≡ r.1
    → Decodes m base i z
        (index_loop f base ((base + K) % crecbuflen) ((base + (K + length r.1)) % crecbuflen) m)

changed-Loop :
    (f i K base : ℕ) (m : ℕ → ℕ) (b h l x : ℕ) (f128 f32 : Bool) (z put index : Bytes)
    → get_index h l ≡ some (i, f128, f32)
    → undo x f128 f32 ≡ b
    → i + suc (length z) ≤ K
    → ((m₃ : ℕ → ℕ) → Loop f (suc i) (suc (suc K)) base m₃ z (put, index))
    → Loop (suc f) i K base m (b ∷ z) (x ∷ put, h ∷ l ∷ index)
changed-Loop f i K base m b h l x f128 f32 z put index g back apart ih fits fuel d e =
    let n = length z in
    let k = length index in
    let m₂ = update (update m ((base + K) % crecbuflen) 0) ((base + suc K) % crecbuflen) 0 in
    let m₃ = apply_index base m₂ (i, f128, f32) in
    let d' = sym (from-suc m base i n) ∙ d in
    let e' =
      sym (ap (λ y. m ((base + K) % crecbuflen) ∷ y) (from-suc m base (suc K) k))
      ∙ sym (from-suc m base K (suc k))
      ∙ e in
    let A =
      apply_index-Applied m base i K n k b x f128 f32 (omega arith) (omega arith)
        (ap (λ y. get_or y 0 0) d') back in
    let s =
      index_loop-step f base K (suc (suc k)) m h l (i, f128, f32) (omega arith) (omega arith)
        (ap (λ y. get_or y 0 0) e') (ap (λ y. get_or y 1 0) e') g in
    let r =
      ih m₃ (omega arith) (omega arith) (A.data_kept ∙ ap (drop 1) d')
        (A.index_kept ∙ ap (drop 2) e') in
    let q : suc (suc K) + k ≡ K + suc (suc k) = omega arith in
    rw s (Decodes-cons m m₃ base i b z _ (omega arith) A.before A.at_i (rw q at r))

kept-Loop :
    (f i K base : ℕ) (m : ℕ → ℕ) (b : ℕ) (z put index : Bytes)
    → i + suc (length z) ≤ K
    → Loop f (suc i) K base m z (put, index)
    → Loop f i K base m (b ∷ z) (b ∷ put, index)
kept-Loop f i K base m b z put index apart ih fits fuel d e =
    let d' = sym (from-suc m base i (length z)) ∙ d in
    Decodes-cons m m base i b z _ (omega arith) (λ k l. refl) (ap (λ y. get_or y 0 0) d')
      (ih fits fuel (ap (drop 1) d') e)

Loop-encode_from :
    (avoid z : Bytes) (f i K base : ℕ) (m : ℕ → ℕ)
    → Unprintable avoid
    → AllBytes z
    → i + length z ≤ imaxpacksize + 1
    → i + length z ≤ K
    → Loop f i K base m z (encode_from avoid i z)
unfolding encode_from
Loop-encode_from avoid z zero i K base m u a h apart = λ fits fuel d e. absurd (omega arith)
Loop-encode_from avoid [] (suc f) i K base m u a h apart =
    λ fits fuel d e. rw (index_loop-end f base K m) (record { back = refl; before = λ k l. refl })
Loop-encode_from avoid (b ∷ z) (suc f) i K base m u a h apart =
    let q = encode_from avoid (i + 1) z in
    let s : i + 1 ≡ suc i = omega arith in
    elim (Bool-cases (is_avoided avoid b)) [
      | inl t ↦
          let ch = change b in
          let (p, back, o) = change_lem b a.0 (avoided-Unprintable avoid b u t) in
          let (p₀, p₁, g) = put_index_lem i ch.f128 ch.f32 (omega arith) o in
          let at = put_index i ch.f128 ch.f32 in
          let k = encode_from-avoided avoid i b z t in
          subst (Loop (suc f) i K base m (b ∷ z)) (sym k) (
            changed-Loop f i K base m b at.0 at.1 ch.byte ch.f128 ch.f32 z q.0 q.1 g back
              (omega arith)
              (λ m₃.
                subst (λ j. Loop f j (suc (suc K)) base m₃ z q) s
                  (Loop-encode_from avoid z f (i + 1) (suc (suc K)) base m₃ u a.1 (omega arith)
                    (omega arith))))
      | inr t ↦
          let k = encode_from-kept avoid i b z t in
          subst (Loop (suc f) i K base m (b ∷ z)) (sym k) (
            kept-Loop (suc f) i K base m b z q.0 q.1 (omega arith) (
              subst (λ j. Loop (suc f) j K base m z q) s
                (Loop-encode_from avoid z (suc f) (i + 1) K base m u a.1 (omega arith)
                  (omega arith))))
    ]

length-index : (avoid z : Bytes) (i : ℕ) → length (encode_from avoid i z).1 ≤ 2 * length z
unfolding encode_from
length-index avoid [] i = omega arith
length-index avoid (b ∷ z) i =
    let ih = length-index avoid z (i + 1) in
    elim (Bool-cases (is_avoided avoid b)) [
      | inl t ↦ rw (encode_from-avoided avoid i b z t) (omega arith)
      | inr t ↦ rw (encode_from-kept avoid i b z t) (omega arith)
    ]

-- For characters to avoid that `fjstart` accepts and at most 3007 bytes of data: where the
-- receive buffer holds the bytes that `fjsend_data` puts for the data and the indices behind
-- them, anywhere in the array, the loop of `fjprocess_data` over the indices ends and leaves
-- exactly the data in the place of those bytes.
pub index_loop-Decodes :
    (own got avoid z : Bytes) (base : ℕ) (m : ℕ → ℕ)
    → avoid_chars own got ≡ some avoid
    → AllBytes z
    → length z ≤ imaxpacksize
    → let (put, index) = encode_from avoid 0 z in
      from m base 0 (length z) ≡ put
      → from m base (length z) (length index) ≡ index
      → Decodes m base 0 z (
          index_loop
            (length index + 1)
            base
            ((base + length z) % crecbuflen)
            ((base + (length z + length index)) % crecbuflen)
            m)
index_loop-Decodes own got avoid z base m s a h d e =
    let u = avoid_chars-Unprintable own got avoid s in
    let l = length-index avoid z 0 in
    Loop-encode_from avoid z (length (encode_from avoid 0 z).1 + 1) 0 (length z) base m u a
      (omega arith) (omega arith) (omega arith) (omega arith) d e
