-- ===== src/J/Apply.antt =====
-- What one round over the indices does to the memory.
use taylor_uucp.Base.{
  ℕ, zero, suc, ◌+◌, ◌%◌, ◌≤◌, ◌<◌, ◌≡◌, ◌≢◌, ◌⊎◌, refl, sym, ap, ap₂, ◌∙◌, inl, inr, Bool, true,
  false, some, ◌∷◌, Bytes, length, ◌==◌, if◌then◌else◌, arith,
}
use taylor_uucp.Prot.{crecbuflen, update}
use taylor_uucp.Prot.Room.{window}
use taylor_uucp.J.{get_index, undo, apply_index, index_loop}

update_same : (m : ℕ → ℕ) (j x : ℕ) → update m j x j ≡ x
update_same m j x = let t : (j == j) ≡ true = ground arith in ap (λ c. if c then x else m j) t

update_other : (m : ℕ → ℕ) (j x l : ℕ) → j ≢ l → update m j x l ≡ m l
update_other m j x l ne =
    let t : (j == l) ≡ false = ground arith in ap (λ c. if c then x else m l) t

-- The `n` bytes from position `k` on, behind `base`.
abbrev pub from : (ℕ → ℕ) → ℕ → ℕ → ℕ → Bytes
from m base k n = window m ((base + k) % crecbuflen) n

next-position :
    (base k : ℕ) → ((base + k) % crecbuflen + 1) % crecbuflen ≡ (base + suc k) % crecbuflen
next-position base k = omega arith

pub from-suc :
    (m : ℕ → ℕ) (base k n : ℕ)
    → from m base k (suc n) ≡ m ((base + k) % crecbuflen) ∷ from m base (suc k) n
from-suc m base k n = ap (λ j. m ((base + k) % crecbuflen) ∷ window m j n) (next-position base k)

-- A write before a window, or behind it, does not reach it.
from-update :
    (n base p k : ℕ) (m : ℕ → ℕ) (x : ℕ)
    → (p < k) ⊎ (k + n ≤ p)
    → p < crecbuflen
    → k + n ≤ crecbuflen
    → from (update m ((base + p) % crecbuflen) x) base k n ≡ from m base k n
from-update zero base p k m x lt hp h = refl
from-update (suc n) base p k m x lt hp h =
    let ne : (base + p) % crecbuflen ≢ (base + k) % crecbuflen = omega (arith, lt) in
    let m₁ = update m ((base + p) % crecbuflen) x in
    from-suc m₁ base k n
    ∙ ap₂ ◌∷◌ (update_other m ((base + p) % crecbuflen) x ((base + k) % crecbuflen) ne)
        (from-update n base p (suc k) m x (omega (arith, lt)) hp (omega arith))
    ∙ sym (from-suc m base k n)

-- After the indices of the bytes from position `i` on, these bytes are back and those before them are
-- as they were.
pub record Restored (m m' : ℕ → ℕ) (base i : ℕ) (z : Bytes) : Type 0 where
  pub back : from m' base i (length z) ≡ z
  pub before : (k : ℕ) → k < i → m' ((base + k) % crecbuflen) ≡ m ((base + k) % crecbuflen)

-- The first byte is back, and those behind it.
pub Restored-cons :
    (m m₁ m' : ℕ → ℕ) (base i b : ℕ) (z : Bytes)
    → i + suc (length z) ≤ crecbuflen
    → ((k : ℕ) → k < i → m₁ ((base + k) % crecbuflen) ≡ m ((base + k) % crecbuflen))
    → m₁ ((base + i) % crecbuflen) ≡ b
    → Restored m₁ m' base (suc i) z
    → Restored m m' base i (b ∷ z)
Restored-cons m m₁ m' base i b z h same at_i r = record {
  back = from-suc m' base i (length z) ∙ ap₂ ◌∷◌ (r.before i (omega arith) ∙ at_i) r.back;
  before = λ k l. r.before k (omega arith) ∙ same k l;
}

-- The two characters of an index are read.
pub index_loop-step :
    (f base K n : ℕ) (m : ℕ → ℕ) (h l : ℕ) (r : ℕ × Bool × Bool)
    → K + n < crecbuflen
    → 1 < n
    → m ((base + K) % crecbuflen) ≡ h
    → m ((base + suc K) % crecbuflen) ≡ l
    → get_index h l ≡ some r
    → let m₂ = update (update m ((base + K) % crecbuflen) 0) ((base + suc K) % crecbuflen) 0 in
      index_loop (suc f) base ((base + K) % crecbuflen) ((base + (K + n)) % crecbuflen) m
      ≡ index_loop f base
          ((base + suc (suc K)) % crecbuflen)
          ((base + (K + n)) % crecbuflen)
          (apply_index base m₂ r)
unfolding index_loop
index_loop-step f base K n m h l r fits two eh el g =
    let j = (base + K) % crecbuflen in
    let t : (j == (base + (K + n)) % crecbuflen) ≡ false = ground arith in
    let ne : j ≢ (base + suc K) % crecbuflen = omega arith in
    let el' : update m j 0 ((base + suc K) % crecbuflen) ≡ l =
      update_other m j 0 ((base + suc K) % crecbuflen) ne ∙ el in
    let end = (base + (K + n)) % crecbuflen in
    rw (index_loop, t, next-position base K, el', eh, g)
      (ap
          (λ i₂.
            index_loop f base ((i₂ + 1) % crecbuflen) end
              (apply_index base (update (update m j 0) i₂ 0) r))
          (next-position base K)
        ∙ ap
            (λ i₃.
              index_loop f base i₃ end
                (apply_index base (update (update m j 0) ((base + suc K) % crecbuflen) 0) r))
            (next-position base (suc K)))

pub index_loop-end :
    (f base K : ℕ) (m : ℕ → ℕ)
    → index_loop (suc f) base ((base + K) % crecbuflen) ((base + (K + 0)) % crecbuflen) m ≡ some m
unfolding index_loop
index_loop-end f base K m =
    let t : ((base + K) % crecbuflen == (base + (K + 0)) % crecbuflen) ≡ true = ground arith in
    rw (index_loop, t) refl

-- The memory after an index has been read and applied.
pub record Applied (m m₃ : ℕ → ℕ) (base i K n k b : ℕ) : Type 0 where
  pub data_kept : from m₃ base (suc i) n ≡ from m base (suc i) n
  pub index_kept : from m₃ base (suc (suc K)) k ≡ from m base (suc (suc K)) k
  pub at_i : m₃ ((base + i) % crecbuflen) ≡ b
  pub before : (p : ℕ) → p < i → m₃ ((base + p) % crecbuflen) ≡ m ((base + p) % crecbuflen)

pub apply_index-Applied :
    (m : ℕ → ℕ) (base i K n k b x : ℕ) (f128 f32 : Bool)
    → suc i + n ≤ K
    → K + suc (suc k) < crecbuflen
    → m ((base + i) % crecbuflen) ≡ x
    → undo x f128 f32 ≡ b
    → let m₂ = update (update m ((base + K) % crecbuflen) 0) ((base + suc K) % crecbuflen) 0 in
      Applied m (apply_index base m₂ (i, f128, f32)) base i K n k b
apply_index-Applied m base i K n k b x f128 f32 apart fits e back =
    let at = λ (p : ℕ). (base + p) % crecbuflen in
    let m₁ = update m (at K) 0 in
    let m₂ = update m₁ (at (suc K)) 0 in
    let y = undo (m₂ (at i)) f128 f32 in
    let low : (p : ℕ) → p ≤ i → m₂ (at p) ≡ m (at p) = λ p l.
      update_other m₁ (at (suc K)) 0 (at p) (omega arith)
      ∙ update_other m (at K) 0 (at p) (omega arith) in
    record {
      data_kept =
          from-update n base i (suc i) m₂ y (inl (omega arith)) (omega arith) (omega arith)
          ∙ from-update n base (suc K) (suc i) m₁ 0 (inr (omega arith)) (omega arith) (omega arith)
          ∙ from-update n base K (suc i) m 0 (inr (omega arith)) (omega arith) (omega arith);
      index_kept =
          from-update k base i (suc (suc K)) m₂ y (inl (omega arith)) (omega arith) (omega arith)
          ∙ from-update k base (suc K) (suc (suc K)) m₁ 0 (inl (omega arith)) (omega arith)
              (omega arith)
          ∙ from-update k base K (suc (suc K)) m 0 (inl (omega arith)) (omega arith) (omega arith);
      at_i = update_same m₂ (at i) y ∙ ap (λ z. undo z f128 f32) (low i (omega arith) ∙ e) ∙ back;
      before = λ p l. update_other m₂ (at i) y (at p) (omega arith) ∙ low p (omega arith);
    }
