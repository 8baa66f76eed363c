-- ===== src/G/Receive/Parts/Data.antt =====
-- A data packet in the receive buffer: what the round of `fgprocess_data` reads of it.
use taylor_uucp.Base.{
  ℕ, ◌+◌, ◌*◌, ◌%◌, ◌^◌, ◌<◌, ◌≡◌, inl, inr, refl, sym, ap, ◌∙◌, some, [], ◌∷◌, ◌++◌, append-nil,
  Bytes, length, length-append, take, drop, take-append, drop-append, ◌==◌, Bool-cases,
  Option-cases, arith,
}
use taylor_uucp.Prot.{Conn, Port, crecbuflen}
use taylor_uucp.Prot.Room.{window, used, contents, IsValid, length-window}
use taylor_uucp.G.{framelen, read_mem}
use taylor_uucp.G.Checksum.{checksum, igchecksum, igchecksum2, igchecksum_lem, igchecksum2_lem}
use taylor_uucp.G.Frame.{data_check, data_header}
use taylor_uucp.G.Memory.{length-read_mem}
use taylor_uucp.G.Receive.Parts.{
  Blocks, at_second, gather, data_blocks, first_block, second_block, block_checksum, block_check,
}
use taylor_uucp.G.Receive.Parts.Ring.{window-add, gather-window, Behind, data_blocks-Behind}
use taylor_uucp.G.Receive.Parts.Shorten.{block_bytes, SecondOk}

-- A window that starts with known bytes.
pub window-split :
    (m : ℕ → ℕ) (h n : ℕ) (a b : Bytes)
    → h < crecbuflen
    → window m h n ≡ a ++ b
    → (window m h (length a) ≡ a) × (window m ((h + length a) % crecbuflen) (length b) ≡ b)
window-split m h n a b k e =
    let l : n ≡ length a + length b =
      omega (arith, length-window m h n, ap length e, length-append a b) in
    let w : window m h (length a) ++ window m ((h + length a) % crecbuflen) (length b) ≡ a ++ b =
      sym (window-add m h (length a) (length b) ((h + length a) % crecbuflen) k refl)
      ∙ ap (λ i. window m h i) (sym l)
      ∙ e in
    let x : length a ≡ length (window m h (length a)) = sym (length-window m h (length a)) in
    (
      sym (take-append (window m h (length a)) _ (length a) x)
          ∙ ap (take (length a)) w
          ∙ take-append a b (length a) refl,
      sym (drop-append (window m h (length a)) _ (length a) x)
          ∙ ap (drop (length a)) w
          ∙ drop-append a b (length a) refl,
    )

length_zero : (z : Bytes) → length z ≡ 0 → z ≡ []
length_zero [] e = refl
length_zero (x ∷ z) e = absurd (omega arith)

module _ {c : Conn} where
  -- The header of a packet that the buffer starts with.
  pub gather-header :
      (p : Port c) (k ctl chk : ℕ) (w : Bytes)
      → IsValid p
      → contents p ≡ data_header k ctl chk ++ w
      → gather framelen p.prec_buf p.prec_start p.prec_end ≡ data_header k ctl chk
  gather-header p k ctl chk w v e =
      gather-window framelen p.prec_buf p.prec_start p.prec_end v.start_in v.end_in (
        omega (
          arith,
          length-window p.prec_buf p.prec_start (used p),
          ap length e,
          length-append (data_header k ctl chk) w,
        ))
      ∙ (window-split p.prec_buf p.prec_start (used p) (data_header k ctl chk) w v.start_in e).0

  -- The blocks of its data.
  pub blocks-segment :
      (p : Port c) (k ctl chk : ℕ) (seg rest : Bytes)
      → IsValid p
      → contents p ≡ data_header k ctl chk ++ (seg ++ rest)
      → 0 < length seg
      → Behind p (length seg) (data_blocks p (length seg))
        × (block_bytes p.prec_buf (data_blocks p (length seg)) ≡ seg)
  blocks-segment p k ctl chk seg rest v e pos =
      let w =
        (window-split p.prec_buf p.prec_start (used p) (data_header k ctl chk) (seg ++ rest)
          v.start_in e).1 in
      let b : Behind p (length seg) (data_blocks p (length seg)) =
        data_blocks-Behind p (length seg) v pos (
          omega (
            arith,
            length-window p.prec_buf p.prec_start (used p),
            ap length e,
            length-append (data_header k ctl chk) (seg ++ rest),
            length-append seg rest,
          )) in
      (
        b,
        b.bytes
            ∙ (window-split p.prec_buf ((p.prec_start + framelen) % crecbuflen)
                (length (seg ++ rest)) seg rest (omega arith) w).0,
      )

  -- What the two pointers hold is one run of bytes.
  pub record Split (p : Port c) (b : Blocks) (z : Bytes) : Type 0 where
    pub second : Bytes
    pub defined : second_block p b ≡ some second
    pub count : length second ≡ b.csecond
    pub whole : first_block p b ++ second ≡ z

  pub block_bytes-Split :
      (p : Port c) (b : Blocks) (z : Bytes)
      → SecondOk b
      → block_bytes p.prec_buf b ≡ z
      → Split p b z
  unfolding second_block
  block_bytes-Split p b z ok e = record {
    second = read_mem p.prec_buf (at_second b.second) b.csecond;
    defined = elim (Option-cases b.second) [ inl n ↦ rw (n, ok n) | inr (i, n) ↦ rw n ];
    count = length-read_mem p.prec_buf (at_second b.second) b.csecond;
    whole = e;
  }

  -- The checksum of the two blocks is that of the run.
  block_checksum-segment :
      (p : Port c) (b : Blocks) (seg : Bytes) (n : ℕ)
      → 0 < b.cfirst
      → Split p b seg
      → length seg ≡ 4 * n
      → 0 < n
      → length seg < 2 ^ 64
      → block_checksum p b ≡ some (checksum seg)
  unfolding block_checksum
  block_checksum-segment p b seg n pos x l hn lt =
      let lf : length (first_block p b) ≡ b.cfirst = length-read_mem p.prec_buf b.first b.cfirst in
      elim (Bool-cases (b.csecond == 0)) [
        | inl t ↦
            let e : x.second ≡ [] = length_zero x.second (x.count ∙ ground arith) in
            let w : first_block p b ≡ seg =
              sym (append-nil _) ∙ ap (λ r. first_block p b ++ r) (sym e) ∙ x.whole in
            rw t (
              ap (λ z. igchecksum z b.cfirst) w
              ∙ ap (igchecksum seg) (sym lf ∙ ap length w)
              ∙ igchecksum_lem n seg l hn lt)
        | inr t ↦
            rw (t, x.defined)
              (ap (λ i. igchecksum2 (first_block p b) i x.second b.csecond) (sym lf)
                ∙ ap (igchecksum2 (first_block p b) (length (first_block p b)) x.second)
                    (sym x.count)
                ∙ igchecksum2_lem (first_block p b) x.second (rw lf pos) (rw x.whole lt)
                ∙ ap (λ z. some (checksum z)) x.whole)
      ]

  -- The check word that is computed for a packet is that of its header.
  pub block_check-segment :
      (p : Port c) (b : Blocks) (seg : Bytes) (ctl n : ℕ)
      → 0 < b.cfirst
      → Split p b seg
      → length seg ≡ 4 * n
      → 0 < n
      → length seg < 2 ^ 64
      → block_check p b ctl ≡ some (data_check (checksum seg) ctl)
  unfolding block_check
  block_check-segment p b seg ctl n pos x l hn lt =
      rw (block_checksum-segment p b seg n pos x l hn lt)
