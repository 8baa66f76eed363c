-- ===== src/G/Receive/Parts/Short.antt =====
-- The count of unused bytes of a short packet is read back, also where it lies across the end of
-- the receive buffer.
use taylor_uucp.Base.{
  ℕ, zero, suc, ◌+◌, ◌-◌, ◌*◌, ◌/◌, ◌%◌, ◌^◌, ◌≤◌, ◌<◌, ◌≡◌, sym, ap, ◌∙◌, true, false, some, [],
  ◌∷◌, ◌++◌, Bytes, length, replicate, bit_or, ltb, leb, ◌==◌, Bool-cases, Option-cases, inl, inr,
  length-append, arith,
}
use taylor_uucp.Base.Bits.{bit_or_fields}
use taylor_uucp.Prot.{Conn, Port}
use taylor_uucp.G.{read_mem}
use taylor_uucp.G.Memory.{length-read_mem}
use taylor_uucp.G.Payload.{unused, segment}
use taylor_uucp.G.Receive.Parts.{Blocks, at_second, next_byte, short_count}
use taylor_uucp.G.Receive.Parts.Shorten.{block_bytes, SecondOk}

abbrev pub head_or : ℕ → Bytes → ℕ
head_or d [] = d
head_or d (x ∷ _) = x

abbrev rest_of : Bytes → Bytes
rest_of [] = []
rest_of (_ ∷ xs) = xs

module _ (m : ℕ → ℕ) where
  -- The first byte, and the second.
  first_byte :
      (first cfirst : ℕ) (tail w : Bytes) (x : ℕ)
      → read_mem m first cfirst ++ tail ≡ x ∷ w
      → 0 < cfirst
      → m first ≡ x
  first_byte first zero tail w x e h = absurd (omega arith)
  first_byte first (suc n) tail w x e h = ap (head_or 0) e

  second_byte :
      (first cfirst : ℕ) (tail w : Bytes) (x y : ℕ)
      → read_mem m first cfirst ++ tail ≡ x ∷ y ∷ w
      → 1 < cfirst
      → m (first + 1) ≡ y
  second_byte first zero tail w x y e h = absurd (omega arith)
  second_byte first (suc zero) tail w x y e h = absurd (omega arith)
  second_byte first (suc (suc n)) tail w x y e h = ap (λ r. head_or 0 (rest_of r)) e

  split_byte :
      (first second csecond : ℕ) (w : Bytes) (x y : ℕ)
      → read_mem m first 1 ++ read_mem m second csecond ≡ x ∷ y ∷ w
      → m second ≡ y
  split_byte first second zero w x y e = absurd (omega (arith, ap length e))
  split_byte first second (suc n) w x y e = ap (λ r. head_or 0 (rest_of r)) e

-- The bytes of the count stand for it.
count_one : (u : ℕ) → u ≤ 127 → (u / 2 ^ 7 % 2 ≡ 0) × (u % 2 ^ 8 ≡ u)
count_one u h = omega arith

count_two :
    (u : ℕ)
    → let b = bit_or 0x80 (u % 2 ^ 7) in (b / 2 ^ 7 % 2 ≡ 1) × (b % 2 ^ 7 + u / 2 ^ 7 * 2 ^ 7 ≡ u)
count_two u =
    let e : bit_or 0x80 (u % 2 ^ 7) ≡ 128 + u % 2 ^ 7 =
      omega (arith, bit_or_fields 7 1 (u % 2 ^ 7) (omega arith)) in
    omega arith

module _ {c : Conn} where
  -- What `short_count` reads, from the bytes of the blocks.
  short_count-one :
      (p : Port c) (b : Blocks) (u : ℕ) (w : Bytes)
      → 0 < b.cfirst
      → block_bytes p.prec_buf b ≡ u ∷ w
      → u ≤ 127
      → short_count p b ≡ some (u, 1)
  unfolding short_count
  short_count-one p b u w pos e h =
      let x : p.prec_buf b.first ≡ u =
        first_byte p.prec_buf b.first b.cfirst (read_mem p.prec_buf (at_second b.second) b.csecond)
          w u e pos in
      let t : (u / 2 ^ 7 % 2 == 0) ≡ true = ground (arith, count_one u h) in
      rw (x, t, (count_one u h).1)

  next_byte-second :
      (p : Port c) (b : Blocks) (x y : ℕ) (w : Bytes)
      → 0 < b.cfirst
      → SecondOk b
      → block_bytes p.prec_buf b ≡ x ∷ y ∷ w
      → next_byte p b ≡ some y
  unfolding next_byte
  next_byte-second p b x y w pos ok e = elim (Bool-cases (ltb 1 b.cfirst)) [
    | inl t ↦ rw t (ap some (second_byte p.prec_buf b.first b.cfirst _ w x y e (ground arith)))
    | inr t ↦
        let one : b.cfirst ≡ 1 = ground arith in
        let e₁ : read_mem p.prec_buf b.first 1 ++ read_mem p.prec_buf (at_second b.second) b.csecond
            ≡ x ∷ y ∷ w =
          ap
            (λ n.
              read_mem p.prec_buf b.first n ++ read_mem p.prec_buf (at_second b.second) b.csecond)
            (sym one)
          ∙ e in
        rw t (elim (Option-cases b.second) [
          | inl n ↦ absurd (
              omega (
                arith,
                ap length e₁,
                ok n,
                length-append (read_mem p.prec_buf b.first 1)
                    (read_mem p.prec_buf (at_second b.second) b.csecond),
                length-read_mem p.prec_buf (at_second b.second) b.csecond,
              ))
          | inr (i, n) ↦
              rw n (
                ap some
                  (split_byte p.prec_buf b.first i b.csecond w x y (rw (← ap at_second n) e₁)))
        ])
  ]

  short_count-two :
      (p : Port c) (b : Blocks) (u : ℕ) (w : Bytes)
      → 0 < b.cfirst
      → SecondOk b
      → block_bytes p.prec_buf b ≡ bit_or 0x80 (u % 2 ^ 7) ∷ (u / 2 ^ 7) ∷ w
      → short_count p b ≡ some (u, 2)
  unfolding short_count
  short_count-two p b u w pos ok e =
      let x : p.prec_buf b.first ≡ bit_or 0x80 (u % 2 ^ 7) =
        first_byte p.prec_buf b.first b.cfirst (read_mem p.prec_buf (at_second b.second) b.csecond)
          _ _ e pos in
      let t : (bit_or 0x80 (u % 2 ^ 7) / 2 ^ 7 % 2 == 0) ≡ false = ground (arith, count_two u) in
      let t' : (p.prec_buf b.first / 2 ^ 7 % 2 == 0) ≡ false =
        ap (λ b₀. b₀ / 2 ^ 7 % 2 == 0) x ∙ t in
      let y : next_byte p b ≡ some (u / 2 ^ 7) = next_byte-second p b _ _ w pos ok e in
      let v : bit_or 0x80 (u % 2 ^ 7) % 2 ^ 7 + u / 2 ^ 7 * 2 ^ 7 ≡ u = (count_two u).1 in
      rw (t', y) (ap (λ n. some (n, 2)) (ap (λ b₀. b₀ % 2 ^ 7 + u / 2 ^ 7 * 2 ^ 7) x ∙ v))

  -- The count of a segment that its data does not fill.
  pub short_count-segment :
      (p : Port c) (b : Blocks) (size : ℕ) (z : Bytes)
      → 0 < b.cfirst
      → SecondOk b
      → block_bytes p.prec_buf b ≡ segment size z
      → length z < size
      → short_count p b ≡ some (size - length z, length (unused (size - length z)))
  short_count-segment p b size z pos ok e h =
      let u = size - length z in
      let t : (length z == size) ≡ false = ground arith in
      let e' : block_bytes p.prec_buf b ≡ unused u ++ z ++ replicate (u - length (unused u)) 0 =
        e ∙ rw t in
      elim (Bool-cases (leb u 127)) [
        | inl l ↦
            rw l (short_count-one p b u (z ++ replicate (u - 1) 0) pos (e' ∙ rw l) (ground arith))
        | inr l ↦ rw l (short_count-two p b u (z ++ replicate (u - 2) 0) pos ok (e' ∙ rw l))
      ]
