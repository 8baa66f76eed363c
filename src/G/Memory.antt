-- ===== src/G/Memory.antt =====
-- Memory read as bytes.
use taylor_uucp.Base.{
  ℕ, zero, suc, ◌+◌, ◌-◌, ◌≤◌, ◌<◌, ◌≡◌, inl, refl, ap, ap₂, ◌∙◌, [], ◌∷◌, ◌++◌, Bytes, length,
  replicate, take, drop, arith,
}
use taylor_uucp.Prot.{update, copy_in}
use taylor_uucp.Prot.Room.{copy_in_outside}
use taylor_uucp.G.{read_mem}

pub length-read_mem : (m : ℕ → ℕ) (i n : ℕ) → length (read_mem m i n) ≡ n
length-read_mem m i zero = refl
length-read_mem m i (suc n) = ap suc (length-read_mem m (i + 1) n)

-- Memory that agrees on a range reads the same there.
pub read_mem_congr :
    (m m' : ℕ → ℕ) (i n : ℕ)
    → ((j : ℕ) → i ≤ j → j < i + n → m j ≡ m' j)
    → read_mem m i n ≡ read_mem m' i n
read_mem_congr m m' i zero h = refl
read_mem_congr m m' i (suc n) h =
    ap₂ ◌∷◌ (h i (omega arith) (omega arith))
      (read_mem_congr m m' (i + 1) n (λ j a b. h j (omega arith) (omega arith)))

pub read_mem-add :
    (m : ℕ → ℕ) (i n k j : ℕ) → j ≡ i + n → read_mem m i (n + k) ≡ read_mem m i n ++ read_mem m j k
read_mem-add m i zero k j e =
    let a : zero + k ≡ k = omega arith in let b : i ≡ j = omega arith in rw (a, b)
read_mem-add m i (suc n) k j e =
    let a : suc n + k ≡ suc (n + k) = omega arith in
    rw a (ap (λ r. m i ∷ r) (read_mem-add m (i + 1) n k j (omega arith)))

-- Where every byte of a range is zero.
pub read_mem_zero :
    (m : ℕ → ℕ) (i n : ℕ) → ((j : ℕ) → i ≤ j → j < i + n → m j ≡ 0) → read_mem m i n ≡ replicate n 0
read_mem_zero m i zero h = refl
read_mem_zero m i (suc n) h =
    ap₂ ◌∷◌ (h i (omega arith) (omega arith))
      (read_mem_zero m (i + 1) n (λ j a b. h j (omega arith) (omega arith)))

-- What was copied is read back.
pub read_mem-copy_in : (z : Bytes) (m : ℕ → ℕ) (i : ℕ) → read_mem (copy_in m i z) i (length z) ≡ z
read_mem-copy_in [] m i = refl
read_mem-copy_in (b ∷ z) m i =
    ap₂ ◌∷◌ (copy_in_outside z (update m i b) (i + 1) i (inl (omega arith)) ∙ ground arith)
      (read_mem-copy_in z (update m i b) (i + 1))

pub drop-read_mem :
    (k n : ℕ) (m : ℕ → ℕ) (i : ℕ) → k ≤ n → drop k (read_mem m i n) ≡ read_mem m (i + k) (n - k)
drop-read_mem zero n m i h =
    let a : i ≡ i + zero = omega arith in
    let b : n ≡ n - zero = omega arith in ap₂ (λ j l. read_mem m j l) a b
drop-read_mem (suc k) zero m i h = absurd (omega arith)
drop-read_mem (suc k) (suc n) m i h =
    let a : i + 1 + k ≡ i + suc k = omega arith in
    let b : n - k ≡ suc n - suc k = omega arith in
    drop-read_mem k n m (i + 1) (omega arith) ∙ ap₂ (λ j l. read_mem m j l) a b

pub take-read_mem : (k n : ℕ) (m : ℕ → ℕ) (i : ℕ) → k ≤ n → take k (read_mem m i n) ≡ read_mem m i k
take-read_mem zero n m i h = refl
take-read_mem (suc k) zero m i h = absurd (omega arith)
take-read_mem (suc k) (suc n) m i h = ap (λ r. m i ∷ r) (take-read_mem k n m (i + 1) (omega arith))
