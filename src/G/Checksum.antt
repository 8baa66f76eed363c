-- ===== src/G/Checksum.antt =====
-- protg.c: the two checksum loops, and the plain recursion that both compute.
use taylor_uucp.Base.{
  ℕ, zero, suc, ◌+◌, ◌-◌, ◌*◌, ◌/◌, ◌%◌, ◌^◌, ◌≤◌, ◌<◌, ◌≡◌, ◌⊎◌, inl, inr, refl, false, Option,
  none, some, [], ◌∷◌, ◌++◌, Bytes, length, length-append, bit_and, bit_xor, ◌==◌, ◌!=◌,
  if◌then◌else◌, arith,
}

-- `unsigned long` and `size_t` arithmetic.
abbrev pub ulong : ℕ → ℕ
ulong x = x % 2 ^ 64

abbrev pub dec_size : ℕ → ℕ
dec_size c = (c + 2 ^ 64 - 1) % 2 ^ 64

-- `ichk1` and `ichk2`.
pub record Sums : Type 0 where
  pub chk1 : ℕ
  pub chk2 : ℕ

-- `ROTATE`.
unfoldable pub rotate : ℕ → ℕ
rotate i = ulong (i + (i + bit_and i 0x8000 / 2 ^ 15))

-- `ITERATION`, but for the steps of `z` and `c`.
unfoldable pub iteration : ℕ → ℕ → Sums → Sums
unfolding rotate
iteration b c s =
    let r = rotate s.chk1 in
    if b != 0
    then (let a = r % 2 ^ 16 + b in
        let d = ulong (s.chk2 + bit_xor a c) in
        record { chk1 = if a / 2 ^ 16 != 0 then bit_xor a d else a; chk2 = d })
    else (let d = ulong (s.chk2 + bit_xor r c) in record { chk1 = bit_xor r d; chk2 = d })

abbrev pub start : Sums
start = record { chk1 = 0xffff; chk2 = 0 }

-- The loop of `igchecksum`: four bytes at a time, and the count is tested only after them. `none`
-- is a read behind the data.
unrolled : Bytes → ℕ → Sums → Option ℕ
unfolding iteration
unrolled (b₀ ∷ b₁ ∷ b₂ ∷ b₃ ∷ z) c s =
    let c₁ = dec_size c in
    let c₂ = dec_size c₁ in
    let c₃ = dec_size c₂ in
    let c₄ = dec_size c₃ in
    let s' = iteration b₃ c₃ (iteration b₂ c₂ (iteration b₁ c₁ (iteration b₀ c s))) in
    let rest = unrolled z c₄ s' in if c₄ == 0 then some (s'.chk1 % 2 ^ 16) else rest
unrolled (b₀ ∷ b₁ ∷ b₂ ∷ []) c s = none
unrolled (b₀ ∷ b₁ ∷ []) c s = none
unrolled (b₀ ∷ []) c s = none
unrolled [] c s = none

unfoldable pub igchecksum : Bytes → ℕ → Option ℕ
unfolding unrolled
igchecksum z c = unrolled z c start

-- The loop of `igchecksum2`, which goes on with the second block when the first is used up. The
-- rounds are those that the count allows.
split_loop : ℕ → Bytes → ℕ → Bytes → ℕ → Sums → Option ℕ
unfolding iteration
split_loop zero z cfirst second c s = none
split_loop (suc f) [] cfirst second c s = none
split_loop (suc f) (b ∷ z) cfirst second c s =
    let s' = iteration b c s in
    let c' = dec_size c in
    let cfirst' = dec_size cfirst in
    let z' = if cfirst' == 0 then second else z in
    let rest = split_loop f z' cfirst' second c' s' in
    if c' == 0 then some (s'.chk1 % 2 ^ 16) else rest

unfoldable pub igchecksum2 : Bytes → ℕ → Bytes → ℕ → Option ℕ
unfolding split_loop
igchecksum2 first cfirst second csecond =
    let c = (cfirst + csecond) % 2 ^ 64 in split_loop c first cfirst second c start

-- The checksum as one pass over the bytes, each with the count of bytes that are left.
unfoldable pub sums : Bytes → Sums → Sums
sums [] s = s
sums (b ∷ z) s = sums z (iteration b (length (b ∷ z)) s)

unfoldable pub checksum : Bytes → ℕ
checksum z = (sums z start).chk1 % 2 ^ 16

pub checksum-lt : (z : Bytes) → checksum z < 2 ^ 16
unfolding checksum
checksum-lt z = omega arith

unrolled-sums :
    (n : ℕ) (z : Bytes) (c : ℕ) (s : Sums)
    → length z ≡ 4 * n
    → 0 < n
    → c ≡ length z
    → c < 2 ^ 64
    → unrolled z c s ≡ some ((sums z s).chk1 % 2 ^ 16)
unfolding unrolled sums
unrolled-sums zero z c s e h ec k = absurd (omega arith)
unrolled-sums (suc n) [] c s e h ec k = absurd (omega arith)
unrolled-sums (suc n) (b₀ ∷ []) c s e h ec k = absurd (omega arith)
unrolled-sums (suc n) (b₀ ∷ b₁ ∷ []) c s e h ec k = absurd (omega arith)
unrolled-sums (suc n) (b₀ ∷ b₁ ∷ b₂ ∷ []) c s e h ec k = absurd (omega arith)
unrolled-sums (suc n) (b₀ ∷ b₁ ∷ b₂ ∷ b₃ ∷ []) c s e h ec k = rw ec
unrolled-sums (suc n) (b₀ ∷ b₁ ∷ b₂ ∷ b₃ ∷ b ∷ z) c s e h ec k =
    let m = suc (length z) in
    let e₁ : dec_size c ≡ suc (suc (suc m)) = omega arith in
    let e₂ : dec_size (suc (suc (suc m))) ≡ suc (suc m) = omega arith in
    let e₃ : dec_size (suc (suc m)) ≡ suc m = omega arith in
    let e₄ : dec_size (suc m) ≡ m = omega arith in
    let ne : (m == 0) ≡ false = ground arith in
    let s' = iteration b₃ (suc m) (
      iteration b₂ (suc (suc m))
        (iteration b₁ (suc (suc (suc m))) (iteration b₀ (suc (suc (suc (suc m)))) s))) in
    rw (e₁, e₂, e₃, e₄, ne, ec)
      (unrolled-sums n (b ∷ z) m s' (omega arith) (omega arith) refl (omega arith))

-- The counter of the first block wraps round below zero, and no longer matters.
second_block :
    (f : ℕ) (z : Bytes) (cfirst : ℕ) (second : Bytes) (c : ℕ) (s : Sums)
    → (cfirst ≡ 0) ⊎ (c < cfirst)
    → cfirst < 2 ^ 64
    → c ≡ length z
    → 0 < c
    → c ≤ f
    → c < 2 ^ 64
    → split_loop f z cfirst second c s ≡ some ((sums z s).chk1 % 2 ^ 16)
unfolding split_loop sums
second_block zero z cfirst second c s w wl ec pos k k' = absurd (omega arith)
second_block (suc f) [] cfirst second c s w wl ec pos k k' = absurd (omega arith)
second_block (suc f) (b ∷ []) cfirst second c s w wl ec pos k k' = rw ec
second_block (suc f) (b ∷ b' ∷ z) cfirst second c s w wl ec pos k k' =
    let m = suc (length z) in
    let e₁ : dec_size c ≡ m = omega arith in
    let ne : (m == 0) ≡ false = ground arith in
    let nf : (dec_size cfirst == 0) ≡ false = ground arith in
    rw (e₁, ne, nf, ec)
      (second_block f (b' ∷ z) (dec_size cfirst) second m (iteration b (suc m) s)
        (inr (ground arith)) (omega arith) refl (omega arith) (omega arith) (omega arith))

split_loop-sums :
    (f : ℕ) (z : Bytes) (cfirst : ℕ) (second : Bytes) (c : ℕ) (s : Sums)
    → cfirst ≡ length z
    → 0 < cfirst
    → c ≡ length (z ++ second)
    → c ≤ f
    → c < 2 ^ 64
    → split_loop f z cfirst second c s ≡ some ((sums (z ++ second) s).chk1 % 2 ^ 16)
unfolding split_loop sums
split_loop-sums zero z cfirst second c s e h ec k k' =
    absurd (omega (arith, length-append z second))
split_loop-sums (suc f) [] cfirst second c s e h ec k k' = absurd (omega arith)
split_loop-sums (suc f) (b ∷ []) cfirst [] c s e h ec k k' = rw ec
split_loop-sums (suc f) (b ∷ []) cfirst (b' ∷ z') c s e h ec k k' =
    let m = suc (length z') in
    let e₁ : dec_size c ≡ m = omega arith in
    let ne : (m == 0) ≡ false = ground arith in
    rw (e₁, ne, e, ec)
      (second_block f (b' ∷ z') 0 (b' ∷ z') m (iteration b (suc m) s) (inl refl) (omega arith) refl
        (omega arith) (omega arith) (omega arith))
split_loop-sums (suc f) (b ∷ b' ∷ z) cfirst second c s e h ec k k' =
    let m = suc (length (z ++ second)) in
    let e₁ : dec_size c ≡ m = omega arith in
    let e₂ : dec_size cfirst ≡ suc (length z) = omega (arith, length-append z second) in
    let ne : (m == 0) ≡ false = ground arith in
    let nf : (suc (length z) == 0) ≡ false = ground arith in
    rw (e₁, ne, e₂, nf, ec)
      (split_loop-sums f (b' ∷ z) (suc (length z)) second m (iteration b (suc m) s) refl
        (omega arith) refl (omega arith) (omega arith))

-- For data of a length that is a positive multiple of four below 2^64, the loop of `igchecksum`,
-- which takes four bytes at a time and then tests the count, stays within the data and computes
-- the checksum of the pass that takes one byte at a time.
pub igchecksum_lem :
    (n : ℕ) (z : Bytes)
    → length z ≡ 4 * n
    → 0 < n
    → length z < 2 ^ 64
    → igchecksum z (length z) ≡ some (checksum z)
unfolding igchecksum checksum
igchecksum_lem n z e h k = unrolled-sums n z (length z) start e h refl k

-- For two blocks of together less than 2^64 bytes, the first of which is not empty, `igchecksum2`
-- stays within the blocks and computes the checksum of one pass over the first followed by the
-- second.
pub igchecksum2_lem :
    (first second : Bytes)
    → 0 < length first
    → length (first ++ second) < 2 ^ 64
    → igchecksum2 first (length first) second (length second) ≡ some (checksum (first ++ second))
unfolding igchecksum2 checksum
igchecksum2_lem first second h k =
    let c = (length first + length second) % 2 ^ 64 in
    let e : c ≡ length (first ++ second) = omega (arith, length-append first second) in
    rw e (
      split_loop-sums (length (first ++ second)) first (length first) second
        (length (first ++ second)) start refl h refl (omega arith) k)
