-- ===== src/G/Frame.antt =====
-- The packets of protg.c as bytes: what a header holds, and that its fields are read back.
use taylor_uucp.Base.{
  ℕ, suc, ◌+◌, ◌-◌, ◌*◌, ◌/◌, ◌%◌, ◌^◌, ◌<◌, ◌≡◌, [], ◌∷◌, ◌++◌, Bytes, bit_or, bit_xor, ap, ◌∙◌,
  arith,
}
use taylor_uucp.Base.Bits.{bit_or_fields, bit_xor_cancel, bit_xor-lt}
use taylor_uucp.G.{
  low_bits, shr, dle, control_tt, control_xxx, control_yyy, word16, sub_aaaa, header_xor, read_mem,
  packet_start, framelen, control, kcontrol, control_frame,
}

-- The check word of a data packet, from the checksum of its data and its control byte.
abbrev pub data_check : ℕ → ℕ → ℕ
data_check chk ctl = sub_aaaa (bit_xor chk ctl)

-- The header of a data packet.
abbrev pub data_header : ℕ → ℕ → ℕ → Bytes
data_header k ctl chk =
    let check = data_check chk ctl in
    let lo = low_bits check 8 in
    let hi = shr check 8 in dle ∷ k ∷ lo ∷ hi ∷ ctl ∷ header_xor k lo hi ctl ∷ []

-- The control byte of a data packet.
abbrev pub data_control : ℕ → ℕ → ℕ → ℕ
data_control tt seq ack = bit_or (bit_or (tt * 2 ^ 6) (seq * 2 ^ 3)) ack

pub word16_lem : (x : ℕ) → x < 2 ^ 16 → word16 (shr x 8) (low_bits x 8) ≡ x
word16_lem x h = omega (arith, bit_or_fields 8 (x / 2 ^ 8) (x % 2 ^ 8) (omega arith))

pub sub_aaaa-sub_aaaa : (x : ℕ) → x < 2 ^ 16 → sub_aaaa (sub_aaaa x) ≡ x
sub_aaaa-sub_aaaa x h = omega arith

-- The checksum of the data is found again from a header.
pub old_check :
    (chk ctl : ℕ)
    → chk < 2 ^ 16
    → ctl < 2 ^ 8
    → let check = data_check chk ctl in
      bit_xor (sub_aaaa (word16 (shr check 8) (low_bits check 8))) ctl ≡ chk
old_check chk ctl h k =
    let x = bit_xor chk ctl in
    let x_lt : x < 2 ^ 16 = bit_xor-lt 16 h (omega arith) in
    rw (word16_lem (sub_aaaa x) (omega arith), sub_aaaa-sub_aaaa x x_lt)
      (bit_xor_cancel 16 h (omega arith))

-- For a type below 4 and sequence numbers below 8, the control byte that `fgsenddata` makes is
-- below 256, being type * 64 + sequence number * 8 + acknowledgement, and the macros that take a
-- control byte apart return the three.
pub data_control_fields :
    (tt seq ack : ℕ)
    → tt < 4
    → seq < 8
    → ack < 8
    → let b = data_control tt seq ack in
      (b ≡ tt * 64 + seq * 8 + ack)
      × (control_tt b ≡ tt)
      × (control_xxx b ≡ seq)
      × (control_yyy b ≡ ack)
data_control_fields tt seq ack h k l =
    let e : bit_or (tt * 2 ^ 6) (seq * 2 ^ 3) ≡ (tt * 8 + seq) * 2 ^ 3 =
      omega (arith, bit_or_fields 6 tt (seq * 2 ^ 3) (omega arith)) in
    let e' : data_control tt seq ack ≡ tt * 64 + seq * 8 + ack =
      rw e (omega (arith, bit_or_fields 3 (tt * 8 + seq) ack (omega arith))) in
    omega arith

-- Memory holds the header of a data packet at `z`.
pub record IsFramed (m : ℕ → ℕ) (z k ctl chk : ℕ) : Type 0 where
  pub start : packet_start m ≡ z
  pub byte_dle : m z ≡ dle
  pub byte_k : m (z + 1) ≡ k
  pub byte_low : m (z + 2) ≡ low_bits (data_check chk ctl) 8
  pub byte_high : m (z + 3) ≡ shr (data_check chk ctl) 8
  pub byte_control : m (z + 4) ≡ ctl
  pub byte_xor :
      m (z + 5) ≡ header_xor k (low_bits (data_check chk ctl) 8) (shr (data_check chk ctl) 8) ctl

pub read_mem-IsFramed :
    {m : ℕ → ℕ} {z k ctl chk : ℕ} (n : ℕ)
    → IsFramed m z k ctl chk
    → read_mem m z (framelen + n) ≡ data_header k ctl chk ++ read_mem m (z + framelen) n
read_mem-IsFramed {m} {z} {k} {ctl} {chk} n h =
    let e : framelen + n ≡ suc (suc (suc (suc (suc (suc n))))) = omega arith in
    let a₂ : z + 1 + 1 ≡ z + 2 = omega arith in
    let a₃ : z + 2 + 1 ≡ z + 3 = omega arith in
    let a₄ : z + 3 + 1 ≡ z + 4 = omega arith in
    let a₅ : z + 4 + 1 ≡ z + 5 = omega arith in
    let a₆ : z + 5 + 1 ≡ z + 6 = omega arith in
    rw (
      e, a₂, a₃, a₄, a₅, a₆, h.byte_dle, h.byte_k, h.byte_low, h.byte_high, h.byte_control,
      h.byte_xor,
    )

-- A control packet, whose check word is that of its control byte.
abbrev pub control_bytes : ℕ → ℕ → Bytes
control_bytes xxx yyy =
    let ctl = xxx * 8 + yyy in
    let check = 0xaaaa - ctl in
    let lo = check % 256 in
    let hi = check / 256 in dle ∷ 9 ∷ lo ∷ hi ∷ ctl ∷ bit_xor (bit_xor (bit_xor 9 lo) hi) ctl ∷ []

pub control_frame_lem :
    (xxx yyy : ℕ) → xxx < 8 → yyy < 8 → control_frame xxx yyy ≡ control_bytes xxx yyy
unfolding control_frame
control_frame_lem xxx yyy hx hy =
    let high : bit_or (control * 2 ^ 6) (xxx * 2 ^ 3) ≡ xxx * 2 ^ 3 =
      omega (arith, bit_or_fields 6 0 (xxx * 2 ^ 3) (omega arith)) in
    let ctl : bit_or (bit_or (control * 2 ^ 6) (xxx * 2 ^ 3)) yyy ≡ xxx * 8 + yyy =
      ap (λ n. bit_or n yyy) high ∙ omega (arith, bit_or_fields 3 xxx yyy (omega arith)) in
    let check : sub_aaaa (xxx * 8 + yyy) ≡ 0xaaaa - (xxx * 8 + yyy) = omega arith in
    ap
      (λ b.
        let lo = low_bits (sub_aaaa b) 8 in
        let hi = shr (sub_aaaa b) 8 in
        dle ∷ kcontrol ∷ lo ∷ hi ∷ b ∷ header_xor kcontrol lo hi b ∷ [])
      ctl
    ∙ ap
        (λ w.
          let lo = low_bits w 8 in
          let hi = shr w 8 in
          dle
          ∷ kcontrol
          ∷ lo
          ∷ hi
          ∷ (xxx * 8 + yyy)
          ∷ header_xor kcontrol lo hi (xxx * 8 + yyy)
          ∷ [])
        check
