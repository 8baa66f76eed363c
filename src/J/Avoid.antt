-- ===== src/J/Avoid.antt =====
-- A packet has no character that is to be avoided.
use taylor_uucp.Base.{
  ℕ, ◌+◌, ◌%◌, ◌^◌, ◌≤◌, ◌<◌, ◌≡◌, ◌≢◌, refl, sym, ap, ◌∙◌, inl, inr, Bool, true, false, Option,
  none, some, ◌||◌, [], ◌∷◌, ◌++◌, All, All-append, AllBytes, Bytes, length, ◌==◌, if◌then◌else◌,
  Bool-cases, arith,
}
use mathlib.Core.Path.{subst}
use mathlib.Core.Bool.{false≢true}
use taylor_uucp.J.{
  chdrlen, imaxpacksize, first, fourth, seventh, length_first, length_second, trailer, has_char,
  has_printable, merge, avoid_chars, is_among, is_avoided, change, put_index, encode_from, packet,
}
use taylor_uucp.J.Index.{printable, IsPrintable, printable-IsPrintable, change_lem, put_index_lem}

-- What `fjstart` checks of the characters to avoid.
abbrev pub Unprintable : Bytes → Type 0
Unprintable = All (λ a. printable a ≡ false)

has_printable-Unprintable : (avoid : Bytes) → has_printable avoid ≡ false → Unprintable avoid
has_printable-Unprintable [] h = tt
has_printable-Unprintable (a ∷ z) h = elim (Bool-cases (printable a)) [
  | inl p ↦ absurd (false≢true (sym h ∙ ap (λ x. x || has_printable z) p))
  | inr p ↦ (p, has_printable-Unprintable z (sym (ap (λ x. x || has_printable z) p) ∙ h))
]

abbrev is_none : Option Bytes → Bool
is_none none = true
is_none (some z) = false

some-eq : (x y : Bytes) → some x ≡ some y → x ≡ y
some-eq x y e = ap (λ o. elim o [ none ↦ [] | some z ↦ z ]) e

pub avoid_chars-Unprintable :
    (own got avoid : Bytes) → avoid_chars own got ≡ some avoid → Unprintable avoid
unfolding avoid_chars
avoid_chars-Unprintable own got avoid e = elim (Bool-cases (length (merge own got) == 0)) [
  | inl z ↦ absurd (false≢true (sym (ap is_none (rw z at e))))
  | inr z ↦ elim (Bool-cases (has_printable (merge own got))) [
    | inl p ↦ absurd (false≢true (sym (ap is_none (rw (z, p) at e))))
    | inr p ↦
        let k = rw (z, p) at e in
        subst Unprintable (some-eq (merge own got) avoid k)
          (has_printable-Unprintable (merge own got) p)
  ]
]

-- The characters that may be sent.
abbrev pub Allowed : Bytes → Bytes → Type 0
Allowed avoid = All (λ b. is_avoided avoid b ≡ false)

-- A character that is not printable is not a printable one.
differs : (a b : ℕ) → printable a ≡ false → IsPrintable b → ((a == b) ≡ false) × ((b == a) ≡ false)
differs a b h p = (ground arith, ground arith)

is_among-IsPrintable : (za : Bytes) (b : ℕ) → Unprintable za → IsPrintable b → is_among za b ≡ false
unfolding is_among
is_among-IsPrintable [] b u p = refl
is_among-IsPrintable (a ∷ za) b u p = rw (differs a b u.0 p).0 (is_among-IsPrintable za b u.1 p)

pub is_avoided-IsPrintable :
    (avoid : Bytes) (b : ℕ) → Unprintable avoid → IsPrintable b → is_avoided avoid b ≡ false
unfolding is_avoided
is_avoided-IsPrintable [] b u p = refl
is_avoided-IsPrintable (a ∷ []) b u p = (differs a b u.0 p).1
is_avoided-IsPrintable (a ∷ a' ∷ za) b u p =
    rw ((differs a b u.0 p).1, (differs a' b u.1.0 p).1) (is_among-IsPrintable za b u.1.1 p)

-- What is avoided is not printable.
pub avoided-Unprintable :
    (avoid : Bytes) (b : ℕ) → Unprintable avoid → is_avoided avoid b ≡ true → printable b ≡ false
avoided-Unprintable avoid b u t = elim (Bool-cases (printable b)) [
  | inr f ↦ f
  | inl p ↦
      let q = printable-IsPrintable b p in
      absurd (false≢true (sym (is_avoided-IsPrintable avoid b u q) ∙ t))
]

-- What the loop puts for an avoided byte and for another one.
pub encode_from-avoided :
    (avoid : Bytes) (i b : ℕ) (z : Bytes)
    → is_avoided avoid b ≡ true
    → let ch = change b in
      let at = put_index i ch.f128 ch.f32 in
      let (put, index) = encode_from avoid (i + 1) z in
      encode_from avoid i (b ∷ z) ≡ (ch.byte ∷ put, at.0 ∷ at.1 ∷ index)
unfolding encode_from
encode_from-avoided avoid i b z t = rw (encode_from, t) refl

pub encode_from-kept :
    (avoid : Bytes) (i b : ℕ) (z : Bytes)
    → is_avoided avoid b ≡ false
    → let (put, index) = encode_from avoid (i + 1) z in
      encode_from avoid i (b ∷ z) ≡ (b ∷ put, index)
unfolding encode_from
encode_from-kept avoid i b z t = rw (encode_from, t) refl

encode_from-Allowed :
    (avoid : Bytes) (i : ℕ) (z : Bytes)
    → Unprintable avoid
    → AllBytes z
    → i + length z ≤ imaxpacksize + 1
    → let r = encode_from avoid i z in Allowed avoid r.0 × Allowed avoid r.1
unfolding encode_from
encode_from-Allowed avoid i [] u a h = (tt, tt)
encode_from-Allowed avoid i (b ∷ z) u a h =
    let (ih₀, ih₁) = encode_from-Allowed avoid (i + 1) z u a.1 (omega arith) in
    let ok = is_avoided-IsPrintable avoid in
    elim (Bool-cases (is_avoided avoid b)) [
      | inl t ↦
          let ch = change b in
          let (p, e, o) = change_lem b a.0 (avoided-Unprintable avoid b u t) in
          let (q₀, q₁, e') = put_index_lem i ch.f128 ch.f32 (omega arith) o in
          rw (encode_from-avoided avoid i b z t) ((ok _ u p, ih₀), (ok _ u q₀, (ok _ u q₁, ih₁)))
      | inr t ↦ rw (encode_from-kept avoid i b z t) ((t, ih₀), ih₁)
    ]

packet-Allowed :
    (own got avoid z : Bytes)
    → avoid_chars own got ≡ some avoid
    → AllBytes z
    → length z ≤ imaxpacksize
    → chdrlen + length z + length (encode_from avoid 0 z).1 + 1 < 6080
    → Allowed avoid (packet avoid z)
unfolding packet
packet-Allowed own got avoid z s a h short =
    let u = avoid_chars-Unprintable own got avoid s in
    let (put, index) = encode_from-Allowed avoid 0 z u a (omega arith) in
    let r = encode_from avoid 0 z in
    let n = chdrlen + length z + length r.1 + 1 in
    let ok = λ (b : ℕ) (p : IsPrintable b). is_avoided-IsPrintable avoid b u p in
    let last = ok trailer (record { low = omega arith; high = omega arith }) in
    let tail =
      All-append _ (r.0 ++ r.1) (trailer ∷ []) (All-append _ r.0 r.1 put index) (last, tt) in
    (
      ok first (record { low = omega arith; high = omega arith }),
      (
        ok (length_first n % 2 ^ 8) (record { low = omega arith; high = omega arith }),
        (
          ok (length_second n) (record { low = omega arith; high = omega arith }),
          (
            ok fourth (record { low = omega arith; high = omega arith }),
            (
              ok (length_first (length z) % 2 ^ 8)
                  (record { low = omega arith; high = omega arith }),
              (
                ok (length_second (length z)) (record { low = omega arith; high = omega arith }),
                (ok seventh (record { low = omega arith; high = omega arith }), tail),
              ),
            ),
          ),
        ),
      ),
    )

-- The character is none of these.
abbrev pub Spares : Bytes → ℕ → Type 0
Spares cs b = All (λ a. a ≢ b) cs

ne_of_eqb : (a b : ℕ) → (a == b) ≡ false → a ≢ b
ne_of_eqb a b h = ground arith

is_among-Spares : (za : Bytes) (b : ℕ) → is_among za b ≡ false → Spares za b
unfolding is_among
is_among-Spares [] b h = tt
is_among-Spares (a ∷ za) b h = elim (Bool-cases (a == b)) [
  | inl t ↦ absurd (false≢true (sym h ∙ ap (λ x. if x then true else is_among za b) t))
  | inr t ↦ (
    ne_of_eqb a b t,
    is_among-Spares za b (sym (ap (λ x. if x then true else is_among za b) t) ∙ h),
  )
]

or-false : (p q : Bool) → (p || q) ≡ false → (p ≡ false) × (q ≡ false)
or-false true q h = absurd (false≢true (sym h))
or-false false q h = (refl, h)

-- What the test lets through is none of the characters in the list.
is_avoided-Spares : (avoid : Bytes) (b : ℕ) → is_avoided avoid b ≡ false → Spares avoid b
unfolding is_avoided
is_avoided-Spares [] b h = tt
is_avoided-Spares (a ∷ []) b h = (ground arith, tt)
is_avoided-Spares (a ∷ a' ∷ za) b h =
    let (h₁, h₂) = or-false (b == a || b == a') (is_among za b) h in
    let (h₃, h₄) = or-false (b == a) (b == a') h₁ in
    (λ e. ne_of_eqb b a h₃ (sym e), (λ e. ne_of_eqb b a' h₄ (sym e), is_among-Spares za b h₂))

-- The list that `fjstart` merges has the characters of both sides.
has_char-Spares : (avoid : Bytes) (a b : ℕ) → has_char avoid a ≡ true → Spares avoid b → a ≢ b
has_char-Spares [] a b h k = absurd (false≢true h)
has_char-Spares (x ∷ z) a b h k = elim (Bool-cases (x == a)) [
  | inl t ↦ let e : x ≡ a = ground arith in λ f. k.0 (e ∙ f)
  | inr t ↦ has_char-Spares z a b (sym (ap (λ y. y || has_char z a) t) ∙ h) k.1
]

Spares-append : (xs ys : Bytes) (b : ℕ) → Spares (xs ++ ys) b → Spares xs b × Spares ys b
Spares-append [] ys b h = (tt, h)
Spares-append (x ∷ xs) ys b h = let (h₁, h₂) = Spares-append xs ys b h.1 in ((h.0, h₁), h₂)

merge-Spares : (own got : Bytes) (b : ℕ) → Spares (merge own got) b → Spares own b × Spares got b
merge-Spares own [] b h = (h, tt)
merge-Spares own (a ∷ got) b h = elim (Bool-cases (has_char own a)) [
  | inl t ↦
      let (h₁, h₂) =
        merge-Spares own got b
          (subst (λ x. Spares (merge (if x then own else own ++ a ∷ []) got) b) t h) in
      (h₁, (has_char-Spares own a b t h₁, h₂))
  | inr t ↦
      let (h₁, h₂) =
        merge-Spares (own ++ a ∷ []) got b
          (subst (λ x. Spares (merge (if x then own else own ++ a ∷ []) got) b) t h) in
      let (k₁, k₂) = Spares-append own (a ∷ []) b h₁ in (k₁, (k₂.0, h₂))
]

avoid_chars-merge :
    (own got avoid : Bytes) → avoid_chars own got ≡ some avoid → merge own got ≡ avoid
unfolding avoid_chars
avoid_chars-merge own got avoid e = elim (Bool-cases (length (merge own got) == 0)) [
  | inl z ↦ absurd (false≢true (sym (ap is_none (rw z at e))))
  | inr z ↦ elim (Bool-cases (has_printable (merge own got))) [
    | inl p ↦ absurd (false≢true (sym (ap is_none (rw (z, p) at e))))
    | inr p ↦ some-eq (merge own got) avoid (rw (z, p) at e)
  ]
]

Allowed-Spares :
    (own got z : Bytes) → Allowed (merge own got) z → All (λ b. Spares own b × Spares got b) z
Allowed-Spares own got [] h = tt
Allowed-Spares own got (b ∷ z) h =
    (merge-Spares own got b (is_avoided-Spares (merge own got) b h.0), Allowed-Spares own got z h.1)

-- For characters to avoid of the two sides that `fjstart` accepts, at most 3007 bytes of data and
-- a packet of fewer than 6080 bytes in all: none of the characters of the packet that
-- `fjsend_data` builds, header, data, indices and trailer, is one of this side's characters to
-- avoid or one of the other side's.
pub packet-Spares :
    (own got avoid z : Bytes)
    → avoid_chars own got ≡ some avoid
    → AllBytes z
    → length z ≤ imaxpacksize
    → chdrlen + length z + length (encode_from avoid 0 z).1 + 1 < 6080
    → All (λ b. Spares own b × Spares got b) (packet avoid z)
packet-Spares own got avoid z s a h short = Allowed-Spares own got (packet avoid z) (
    subst (λ l. Allowed l (packet avoid z)) (sym (avoid_chars-merge own got avoid s))
      (packet-Allowed own got avoid z s a h short))
