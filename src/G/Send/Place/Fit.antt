-- ===== src/G/Send/Place/Fit.antt =====
-- How `fgsenddata` chooses the size of a packet, and what it clears.
use taylor_uucp.Base.{
  ℕ, zero, suc, ◌+◌, ◌-◌, ◌*◌, ◌^◌, ◌≤◌, ◌<◌, ◌≡◌, ◌⊎◌, inl, inr, refl, ◌∙◌, Bool, true, false,
  ◌&&◌, ltb, if◌then◌else◌, Bool-cases, arith,
}
use native.Mathlib.Nat.{pow-suc, one-le-pow, pow-le-pow_right}
use native.Mathlib.Decide.{dec_lt}
use taylor_uucp.Prot.{update}
use taylor_uucp.G.Send.Place.{zero_fill, fit, packet_size}

pub zero_fill_outside :
    (n i : ℕ) (m : ℕ → ℕ) (j : ℕ) → (j < i) ⊎ (i + n ≤ j) → zero_fill n i m j ≡ m j
unfolding zero_fill
zero_fill_outside zero i m j h = refl
zero_fill_outside (suc n) i m j (inl h) =
    zero_fill_outside n (i + 1) (update m i 0) j (inl (omega arith)) ∙ ground arith
zero_fill_outside (suc n) i m j (inr h) =
    zero_fill_outside n (i + 1) (update m i 0) j (inr (omega arith)) ∙ ground arith

pub zero_fill_inside : (n i : ℕ) (m : ℕ → ℕ) (j : ℕ) → i ≤ j → j < i + n → zero_fill n i m j ≡ 0
unfolding zero_fill
zero_fill_inside zero i m j h k = absurd (omega arith)
zero_fill_inside (suc n) i m j h k = elim (dec_lt i j) [
  | yes p ↦ zero_fill_inside n (i + 1) (update m i 0) j (omega arith) (omega arith)
  | no p ↦ zero_fill_outside n (i + 1) (update m i 0) j (inl (omega arith)) ∙ ground arith
]

-- The code fills nothing where there is nothing to fill.
pub fill_if :
    (u i : ℕ) (m : ℕ → ℕ) → (if ltb 1 u then zero_fill (u - 1) i m else m) ≡ zero_fill (u - 1) i m
unfolding zero_fill
fill_if zero i m = refl
fill_if (suc zero) i m = refl
fill_if (suc (suc u)) i m = let t : ltb 1 (suc (suc u)) ≡ true = ground arith in rw t

pub lt_of_pow-lt : (a b : ℕ) → 2 ^ a < 2 ^ b → a < b
lt_of_pow-lt a b h = elim (dec_lt a b) [
  | yes p ↦ p
  | no p ↦
      absurd
        (let le : b ≤ a = omega arith in omega (arith, pow-le-pow_right {n = 2} (omega arith) le))
]

-- The size of the segment for `cdata` bytes, on a link whose segments have 2 ^ (n + 4) bytes.
pub record Fits (n cdata : ℕ) (r : ℕ × ℕ) : Type 0 where
  pub size : r.1 ≡ 2 ^ (r.0 + 4)
  pub seg_pos : 1 ≤ r.0
  pub seg_le : r.0 ≤ n
  pub fits : cdata ≤ r.1

fit-Fits :
    (f seg size cdata n : ℕ)
    → size ≡ 2 ^ (seg + 4)
    → 1 ≤ seg
    → seg ≤ n
    → cdata ≤ 2 ^ (n + 4)
    → cdata ≤ size + f
    → Fits n cdata (fit f seg size cdata)
unfolding fit
fit-Fits zero seg size cdata n e h k b l = record {
  size = e;
  seg_pos = h;
  seg_le = k;
  fits = omega arith;
}
fit-Fits (suc f) seg size cdata n e h k b l = elim (Bool-cases (ltb size cdata)) [
  | inl t ↦ rw t (
      let lt : seg + 4 < n + 4 = lt_of_pow-lt (seg + 4) (n + 4) (rw (← e) (ground arith)) in
      let a : seg + 1 + 4 ≡ suc (seg + 4) = omega arith in
      let e' : size * 2 ≡ 2 ^ (seg + 1 + 4) = rw a (omega (arith, pow-suc 2 (seg + 4))) in
      fit-Fits f (seg + 1) (size * 2) cdata n e' (omega arith) (omega arith) b
        (omega (arith, one-le-pow (seg + 4) 2)))
  | inr t ↦ rw t (record { size = e; seg_pos = h; seg_le = k; fits = ground arith })
]

pub packet_size-Fits :
    (segsize : ℕ) (short : Bool) (cdata : ℕ)
    → cdata ≤ 2 ^ (segsize + 1 + 4)
    → Fits (segsize + 1) cdata (packet_size (2 ^ (segsize + 1 + 4)) segsize short cdata)
unfolding packet_size
packet_size-Fits segsize short cdata h =
    elim (Bool-cases
      (ltb cdata (2 ^ (segsize + 1 + 4)) && (ltb 64 (2 ^ (segsize + 1 + 4)) && short))) [
        | inl t ↦ rw t (
            fit-Fits cdata 1 32 cdata (segsize + 1) refl (omega arith) (omega arith) h
              (omega arith))
        | inr t ↦
            rw t (record { size = refl; seg_pos = omega arith; seg_le = omega arith; fits = h })
      ]

pub packet_size-full :
    (segsize : ℕ) (short : Bool) (cdata : ℕ)
    → cdata ≤ 2 ^ (segsize + 1 + 4)
    → (cdata < 2 ^ (segsize + 1 + 4))
      ⊎ ((packet_size (2 ^ (segsize + 1 + 4)) segsize short cdata).1 ≡ cdata)
unfolding packet_size
packet_size-full segsize short cdata h = elim (dec_lt cdata (2 ^ (segsize + 1 + 4))) [
  | yes p ↦ inl p
  | no p ↦
      let t : ltb cdata (2 ^ (segsize + 1 + 4)) ≡ false = ground arith in inr (rw t (omega arith))
]

-- With short packets, on a link with packets of more than 64 bytes, the size is the smallest, and
-- otherwise it is that of the link's packets.
abbrev pub Chosen : ℕ → Bool → ℕ → ℕ → Type 0
Chosen packsize short cdata size =
    ((short ≡ true) × (64 < packsize) × ((size ≡ 32) ⊎ (size < 2 * cdata)))
    ⊎ (((short ≡ false) ⊎ (packsize ≤ 64)) × (size ≡ packsize))

fit_small :
    (f seg size cdata : ℕ)
    → (size ≡ 32) ⊎ (size < 2 * cdata)
    → ((fit f seg size cdata).1 ≡ 32) ⊎ ((fit f seg size cdata).1 < 2 * cdata)
unfolding fit
fit_small zero seg size cdata h = h
fit_small (suc f) seg size cdata h = elim (Bool-cases (ltb size cdata)) [
  | inl t ↦ rw t (fit_small f (seg + 1) (size * 2) cdata (inr (ground arith)))
  | inr t ↦ rw t h
]

pub packet_size-Chosen :
    (packsize segsize : ℕ) (short : Bool) (cdata : ℕ)
    → cdata ≤ packsize
    → Chosen packsize short cdata (packet_size packsize segsize short cdata).1
unfolding packet_size
packet_size-Chosen packsize segsize false cdata h =
    let t : (ltb cdata packsize && (ltb 64 packsize && false)) ≡ false = ground arith in
    rw t (inr (inl refl, refl))
packet_size-Chosen packsize segsize true cdata h = elim (dec_lt 64 packsize) [
  | no small ↦
      let t : (ltb cdata packsize && (ltb 64 packsize && true)) ≡ false = ground arith in
      rw t (inr (inr (omega arith), refl))
  | yes large ↦ elim (dec_lt cdata packsize) [
    | yes lt ↦
        let t : (ltb cdata packsize && (ltb 64 packsize && true)) ≡ true = ground arith in
        rw t (inl (refl, large, fit_small cdata 1 32 cdata (inl refl)))
    | no ge ↦
        let t : (ltb cdata packsize && (ltb 64 packsize && true)) ≡ false = ground arith in
        rw t (inl (refl, large, inr (omega arith)))
  ]
]
