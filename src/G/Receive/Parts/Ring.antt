-- ===== src/G/Receive/Parts/Ring.antt =====
-- The data pointers of a packet, however it lies in the receive buffer.
use taylor_uucp.Base.{
  ℕ, zero, suc, ◌+◌, ◌-◌, ◌%◌, ◌≤◌, ◌<◌, ◌≡◌, inl, inr, refl, sym, ap, ap₂, ◌∙◌, false, ◌∷◌, ◌++◌,
  append-nil, ltb, leb, ◌==◌, Bool-cases, arith,
}
use taylor_uucp.Prot.{Conn, Port, crecbuflen}
use taylor_uucp.Prot.Room.{window, used, IsValid}
use taylor_uucp.G.{framelen, read_mem}
use taylor_uucp.G.Receive.Parts.{Blocks, gather, data_blocks}
use taylor_uucp.G.Receive.Parts.Shorten.{block_bytes, SecondOk}

pub window-add :
    (m : ℕ → ℕ) (h a b h' : ℕ)
    → h < crecbuflen
    → h' ≡ (h + a) % crecbuflen
    → window m h (a + b) ≡ window m h a ++ window m h' b
window-add m h zero b h' lt e =
    let x : zero + b ≡ b = omega arith in let y : h ≡ h' = omega arith in rw (x, y)
window-add m h (suc a) b h' lt e =
    let x : suc a + b ≡ suc (a + b) = omega arith in
    rw x
      (ap (λ r. m h ∷ r) (window-add m ((h + 1) % crecbuflen) a b h' (omega arith) (omega arith)))

-- A window that does not reach round the end of the array.
pub window-read_mem : (m : ℕ → ℕ) (h n : ℕ) → h + n ≤ crecbuflen → window m h n ≡ read_mem m h n
window-read_mem m h zero k = refl
window-read_mem m h (suc zero) k = refl
window-read_mem m h (suc (suc n)) k =
    let e : (h + 1) % crecbuflen ≡ h + 1 = omega arith in
    rw e (ap (λ r. m h ∷ r) (window-read_mem m (h + 1) (suc n) (omega arith)))

-- The loop that copies the header stops after `n` bytes or at the end of the data.
pub gather-window :
    (n : ℕ) (m : ℕ → ℕ) (i e : ℕ)
    → i < crecbuflen
    → e < crecbuflen
    → n ≤ (e + crecbuflen - i) % crecbuflen
    → gather n m i e ≡ window m i n
unfolding gather
gather-window zero m i e h k l = refl
gather-window (suc n) m i e h k l =
    let t : (i == e) ≡ false = ground arith in
    rw t
      (ap (λ r. m i ∷ r) (gather-window n m ((i + 1) % crecbuflen) e (omega arith) k (omega arith)))

-- The blocks hold the `want` bytes behind the header, and the first is not empty.
pub record Behind {c : Conn} (p : Port c) (want : ℕ) (b : Blocks) : Type 0 where
  pub bytes :
      block_bytes p.prec_buf b ≡ window p.prec_buf ((p.prec_start + framelen) % crecbuflen) want
  pub first_pos : 0 < b.cfirst
  pub total : b.cfirst + b.csecond ≡ want
  pub second_ok : SecondOk b

-- Where the buffer's indices are in range and it holds a header and `want` more bytes, with
-- `want` positive, the data pointers of `fgprocess_data` cover those bytes and no others, round
-- the end of the array where they go round it; the first block is not empty, the counts add up to
-- `want`, and where the second pointer is NULL its count is 0.
pub data_blocks-Behind :
    {c : Conn} (p : Port c) (want : ℕ)
    → IsValid p
    → 0 < want
    → framelen + want ≤ used p
    → Behind p want (data_blocks p want)
unfolding data_blocks
data_blocks-Behind p want v pos fits = elim (Bool-cases (leb p.prec_start p.prec_end)) [
  | inl t ↦
      let le : p.prec_start ≤ p.prec_end = ground arith in
      rw t (record {
        bytes = append-nil _ ∙ sym (straight (p.prec_start + framelen) (omega arith) (omega arith));
        first_pos = pos;
        total = omega arith;
        second_ok = λ e. refl;
      })
  | inr t ↦ rw t (elim (Bool-cases (leb want (crecbuflen - (p.prec_start + framelen)))) [
    | inl t' ↦
        let le : want ≤ crecbuflen - (p.prec_start + framelen) = ground arith in
        rw t' (record {
          bytes =
              append-nil _ ∙ sym (straight (p.prec_start + framelen) (omega arith) (omega arith));
          first_pos = pos;
          total = omega arith;
          second_ok = λ e. refl;
        })
    | inr t' ↦ rw t' (elim (Bool-cases (ltb 0 (crecbuflen - (p.prec_start + framelen)))) [
      | inl t'' ↦
          let lt : 0 < crecbuflen - (p.prec_start + framelen) = ground arith in
          let lt' : crecbuflen - (p.prec_start + framelen) < want = ground arith in
          rw t'' (record {
            bytes = sym (split (p.prec_start + framelen) (omega arith) (omega arith) (omega arith));
            first_pos = lt;
            total = omega arith;
            second_ok = λ e. cc;
          })
      | inr t'' ↦
          let le : crecbuflen ≤ p.prec_start + framelen = ground arith in
          rw t'' (record {
            bytes =
                append-nil _
                ∙ sym (straight (p.prec_start + framelen - crecbuflen) (omega arith) (omega arith));
            first_pos = pos;
            total = omega arith;
            second_ok = λ e. refl;
          })
    ])
  ])
]
  where
    straight :
        (h : ℕ)
        → h ≡ (p.prec_start + framelen) % crecbuflen
        → h + want ≤ crecbuflen
        → window p.prec_buf ((p.prec_start + framelen) % crecbuflen) want
          ≡ read_mem p.prec_buf h want
    straight h e k =
        ap (λ i. window p.prec_buf i want) (sym e) ∙ window-read_mem p.prec_buf h want k

    split :
        (h : ℕ)
        → h ≡ (p.prec_start + framelen) % crecbuflen
        → h < crecbuflen
        → crecbuflen - h ≤ want
        → window p.prec_buf ((p.prec_start + framelen) % crecbuflen) want
          ≡ read_mem p.prec_buf h (crecbuflen - h)
            ++ read_mem p.prec_buf 0 (want - (crecbuflen - h))
    split h e k l =
        let w : want ≡ crecbuflen - h + (want - (crecbuflen - h)) = omega arith in
        ap (λ i. window p.prec_buf i want) (sym e)
        ∙ ap (λ n. window p.prec_buf h n) w
        ∙ window-add p.prec_buf h (crecbuflen - h) (want - (crecbuflen - h)) 0 k (omega arith)
        ∙ ap₂ ◌++◌ (window-read_mem p.prec_buf h (crecbuflen - h) (omega arith))
            (window-read_mem p.prec_buf 0 (want - (crecbuflen - h)) (omega arith))

-- They depend on the indices only.
pub data_blocks_indices :
    {c : Conn} (p : Port c) (m : ℕ → ℕ) (want : ℕ)
    → data_blocks (record p { prec_buf = m }) want ≡ data_blocks p want
unfolding data_blocks
data_blocks_indices p m want = refl
