-- ===== src/Prot/Room.antt =====
-- How much of the receive buffer is in use, and that a read never overruns it.
use taylor_uucp.Base.{
  ℕ, zero, suc, ◌+◌, ◌-◌, ◌%◌, ◌≤◌, ◌<◌, ◌≡◌, ◌≢◌, ◌↔◌, ◌⊎◌, inl, inr, refl, ap, ◌∙◌, [], ◌∷◌, ◌++◌,
  append-nil, append_assoc, Bytes, length, arith,
}
use taylor_uucp.Prot.{crecbuflen, Conn, Port, update, copy_in, room, append_read}

-- The `n` bytes from index `h` on, going round at the end of the array.
abbrev pub window : (ℕ → ℕ) → ℕ → ℕ → Bytes
window m h zero = []
window m h (suc n) = m h ∷ window m ((h + 1) % crecbuflen) n

module _ {c : Conn} where
  -- The number of bytes that wait to be read.
  abbrev pub used : Port c → ℕ
  used p = (p.prec_end + crecbuflen - p.prec_start) % crecbuflen

  -- The bytes that wait to be read, oldest first.
  abbrev pub contents : Port c → Bytes
  contents p = window p.prec_buf p.prec_start (used p)

  pub record IsValid (p : Port c) : Type 0 where
    pub start_in : p.prec_start < crecbuflen
    pub end_in : p.prec_end < crecbuflen

  -- With the buffer's indices in range, the room that is computed for a single read ends within
  -- the array, never fills the buffer up, so that a full buffer is not taken for an empty one, is
  -- 0 only if the buffer holds one byte less than the array, and is as large as that allows: it
  -- ends at the end of the array, or one byte short of filling the buffer up.
  pub room_bounds :
      (p : Port c)
      → IsValid p
      → (p.prec_end + room p ≤ crecbuflen)
        × (used p + room p < crecbuflen)
        × ((room p ≡ 0) ↔ (used p + 1 ≡ crecbuflen))
        × ((p.prec_end + room p ≡ crecbuflen) ⊎ (used p + room p + 1 ≡ crecbuflen))
  unfolding room
  room_bounds p v = ground arith

pub length-window : (m : ℕ → ℕ) (h n : ℕ) → length (window m h n) ≡ n
length-window m h zero = refl
length-window m h (suc n) = ap suc (length-window m ((h + 1) % crecbuflen) n)

pub window_of_ne_zero :
    (m : ℕ → ℕ) (h n k : ℕ) → n ≡ suc k → window m h n ≡ m h ∷ window m ((h + 1) % crecbuflen) k
window_of_ne_zero m h n k e = ap (λ i. window m h i) e

-- Writing just past a window extends it.
add-mod-ne : {h k : ℕ} → h < crecbuflen → suc k < crecbuflen → (h + suc k) % crecbuflen ≢ h
add-mod-ne h k = omega arith

window-update :
    (m : ℕ → ℕ) (x n h i : ℕ)
    → h < crecbuflen
    → n < crecbuflen
    → i ≡ (h + n) % crecbuflen
    → window (update m i x) h (suc n) ≡ window m h n ++ (x ∷ [])
window-update m x zero h i hh hn e = let e' : i ≡ h = omega arith in ground arith
window-update m x (suc n) h i hh hn e =
    let e' : i ≡ ((h + 1) % crecbuflen + n) % crecbuflen = omega arith in
    let ne : i ≢ h = omega arith in ground (arith, window-update m x n ((h + 1) % crecbuflen) i)

-- Copying changes no byte outside its range.
pub copy_in_outside :
    (z : Bytes) (m : ℕ → ℕ) (i j : ℕ) → (j < i) ⊎ (i + length z ≤ j) → copy_in m i z j ≡ m j
copy_in_outside [] m i j h = refl
copy_in_outside (b ∷ z) m i j (inl h) =
    copy_in_outside z (update m i b) (i + 1) j (inl (omega arith)) ∙ ground arith
copy_in_outside (b ∷ z) m i j (inr h) =
    copy_in_outside z (update m i b) (i + 1) j (inr (omega arith)) ∙ ground arith

window-copy_in :
    (bs : Bytes) (m : ℕ → ℕ) (n h i k : ℕ)
    → h < crecbuflen
    → n + length bs < crecbuflen
    → i + length bs ≤ crecbuflen
    → i ≡ (h + n) % crecbuflen
    → k ≡ n + length bs
    → window (copy_in m i bs) h k ≡ window m h n ++ bs
window-copy_in [] m n h i k hh hn hi e ek = let e' : k ≡ n = omega arith in rw (e', append-nil)
window-copy_in (b ∷ []) m n h i k hh hn hi e ek =
    let e' : k ≡ suc n = omega arith in rw e' (window-update m b n h i hh (omega arith) e)
window-copy_in (b ∷ b' ∷ bs) m n h i k hh hn hi e ek =
    window-copy_in (b' ∷ bs) (update m i b) (suc n) h (i + 1) k hh (omega arith) (omega arith)
      (omega arith) (omega arith)
    ∙ ap (λ w. w ++ b' ∷ bs) (window-update m b n h i hh (omega arith) e)
    ∙ append_assoc (window m h n) (b ∷ []) (b' ∷ bs)

module _ {c : Conn} where
  -- With the buffer's indices in range, a read of at most as many bytes as `fsend_data` and
  -- `freceive_data` leave room for keeps the indices in range, adds its length to the bytes in
  -- use, and puts its bytes behind the contents.
  pub append_read_lem :
      (p : Port c) (bs : Bytes) (n : c.Net)
      → IsValid p
      → length bs ≤ room p
      → IsValid (append_read p bs n)
        × (used (append_read p bs n) ≡ used p + length bs)
        × (contents (append_read p bs n) ≡ contents p ++ bs)
  append_read_lem p bs n v fits =
      let b = room_bounds p v in
      let u : used (append_read p bs n) ≡ used p + length bs = omega arith in
      let w : IsValid (append_read p bs n) = omega arith in
      (
        w,
        u,
        window-copy_in bs p.prec_buf (used p) p.prec_start p.prec_end (used (append_read p bs n))
            v.start_in (omega arith) (omega arith) (omega arith) u,
      )
