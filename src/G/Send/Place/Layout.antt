-- ===== src/G/Send/Place/Layout.antt =====
-- The layout of a packet in its send buffer: `fgsenddata` puts the data where it stands into a
-- segment of the smallest size that the other side takes.
use taylor_uucp.Base.{
  ℕ, suc, ◌+◌, ◌-◌, ◌/◌, ◌%◌, ◌^◌, ◌≤◌, ◌<◌, ◌≡◌, ◌⊎◌, inl, inr, refl, ap, ap₂, ◌∙◌, Bool, true,
  false, ◌∷◌, ◌++◌, Bytes, length, replicate, bit_or, leb, ◌==◌, Bool-cases, arith,
}
use native.Mathlib.Nat.{pow-le-pow_right}
use taylor_uucp.Prot.{update}
use taylor_uucp.G.{dle, data_type, shortdata, framelen, read_mem, packet_start}
use taylor_uucp.G.Memory.{length-read_mem, read_mem_congr, read_mem-add, read_mem_zero}
use taylor_uucp.G.Payload.{segment, segment_type}
use taylor_uucp.G.Send.Place.{
  Placed, zero_fill, start_header, packet_size, is_full, place_sized, place_data,
}
use taylor_uucp.G.Send.Place.Fit.{
  zero_fill_outside, zero_fill_inside, fill_if, Fits, packet_size-Fits, packet_size-full, Chosen,
  packet_size-Chosen,
}

-- A buffer whose packet starts at `z` with a segment of `size` bytes that carries `z`.
pub record Laid (z : Bytes) (p : Placed) : Type 0 where
  pub start : packet_start p.mem ≡ p.header
  pub header_le : p.header ≤ 2
  pub byte_dle : p.mem p.header ≡ dle
  pub byte_k : p.mem (p.header + 1) ≡ p.seg
  pub content : read_mem p.mem (p.header + framelen) p.size ≡ segment p.size z
  pub type : p.tt ≡ segment_type p.size z

module _ (m : ℕ → ℕ) (cdata seg size : ℕ) where
  abbrev given : Bytes
  given = read_mem m 8 cdata

  length-given : length given ≡ cdata
  length-given = length-read_mem m 8 cdata

  full-Laid :
      size ≡ cdata
      → Laid given (record {
        mem = start_header m 2 1 0 seg;
        header = 2;
        tt = data_type;
        seg = seg;
        size = size;
      })
  full-Laid e =
      let t : (length given == size) ≡ true = ground (arith, length-given) in
      record {
        start = unfold packet_start in refl;
        header_le = omega arith;
        byte_dle = refl;
        byte_k = refl;
        content =
            rw (t, e) (read_mem_congr (start_header m 2 1 0 seg) m 8 cdata (λ j a b. ground arith));
        type = rw t;
      }

  -- The given data with zeros behind it, wherever memory holds them.
  padded :
      (m' : ℕ → ℕ) (w : ℕ)
      → ((j : ℕ) → 8 ≤ j → j < 8 + cdata → m' j ≡ m j)
      → ((j : ℕ) → 8 + cdata ≤ j → j < 8 + cdata + w → m' j ≡ 0)
      → read_mem m' 8 (cdata + w) ≡ given ++ replicate w 0
  padded m' w h k =
      read_mem-add m' 8 cdata w (8 + cdata) refl
      ∙ ap₂ ◌++◌ (read_mem_congr m' m 8 cdata h) (read_mem_zero m' (8 + cdata) w k)

  short-Laid :
      (fill : ℕ → ℕ)
      → cdata < size
      → size - cdata ≤ 127
      → fill 7 ≡ size - cdata
      → ((j : ℕ) → 8 ≤ j → j < 8 + cdata → fill j ≡ m j)
      → ((j : ℕ) → 8 + cdata ≤ j → j < 8 + cdata + (size - cdata - 1) → fill j ≡ 0)
      → Laid given (record {
        mem = start_header fill 1 0 1 seg;
        header = 1;
        tt = shortdata;
        seg = seg;
        size = size;
      })
  short-Laid fill lt le e h k =
      let t : (length given == size) ≡ false = ground (arith, length-given) in
      let l : leb (size - cdata) 127 ≡ true = ground arith in
      let n : size ≡ suc (cdata + (size - cdata - 1)) = omega arith in
      let mem = start_header fill 1 0 1 seg in
      record {
        start = unfold packet_start in refl;
        header_le = omega arith;
        byte_dle = refl;
        byte_k = refl;
        content =
            rw (t, length-given, l)
              (ap (λ n. read_mem mem 7 n) n
                ∙ ap₂ ◌∷◌ e (
                    padded mem (size - cdata - 1) (λ j a b. ground (arith, h j))
                      (λ j a b. ground (arith, k j))));
        type = rw t;
      }

  long-Laid :
      (fill : ℕ → ℕ)
      → cdata < size
      → 127 < size - cdata
      → fill 6 ≡ bit_or 0x80 ((size - cdata) % 2 ^ 7)
      → fill 7 ≡ (size - cdata) / 2 ^ 7
      → ((j : ℕ) → 8 ≤ j → j < 8 + cdata → fill j ≡ m j)
      → ((j : ℕ) → 8 + cdata ≤ j → j < 8 + cdata + (size - cdata - 2) → fill j ≡ 0)
      → Laid given (record {
        mem = start_header fill 0 0 0 seg;
        header = 0;
        tt = shortdata;
        seg = seg;
        size = size;
      })
  long-Laid fill lt le e e' h k =
      let t : (length given == size) ≡ false = ground (arith, length-given) in
      let l : leb (size - cdata) 127 ≡ false = ground arith in
      let n : size ≡ suc (suc (cdata + (size - cdata - 2))) = omega arith in
      let mem = start_header fill 0 0 0 seg in
      record {
        start = unfold packet_start in refl;
        header_le = omega arith;
        byte_dle = refl;
        byte_k = refl;
        content =
            rw (t, length-given, l)
              (ap (λ n. read_mem mem 6 n) n
                ∙ ap₂ ◌∷◌ e (
                    ap₂ ◌∷◌ e' (
                      padded mem (size - cdata - 2) (λ j a b. ground (arith, h j))
                        (λ j a b. ground (arith, k j)))));
        type = rw t;
      }

  place_sized-Laid :
      (packsize : ℕ)
      → cdata ≤ size
      → (cdata < packsize) ⊎ (size ≡ cdata)
      → size - cdata < 2 ^ 15
      → Laid given (place_sized packsize cdata m seg size)
        × ((place_sized packsize cdata m seg size).size ≡ size)
        × ((place_sized packsize cdata m seg size).seg ≡ seg)
  unfolding place_sized
  place_sized-Laid packsize h o b =
      let u = size - cdata in
      let m₁ = update (update m 7 (u % 2 ^ 8)) 6 0 in
      let m₂ = update (update m 6 (bit_or 0x80 (u % 2 ^ 7))) 7 (u / 2 ^ 7 % 2 ^ 8) in
      elim (Bool-cases (size == cdata)) [
        | inl t ↦
            let f : is_full packsize size cdata ≡ true = ground arith in
            rw f (full-Laid (ground arith), refl, refl)
        | inr t ↦
            let f : is_full packsize size cdata ≡ false = ground arith in
            let lt : cdata < size = ground arith in
            rw f (elim (Bool-cases (leb (size - cdata) 127)) [
              | inl l ↦
                  rw (l, fill_if)
                    (
                      short-Laid (zero_fill (u - 1) (7 + cdata + 1) m₁) lt (ground arith)
                          (zero_fill_outside (u - 1) (7 + cdata + 1) m₁ 7 (inl (omega arith))
                            ∙ ground arith)
                          (λ j a b'.
                            zero_fill_outside (u - 1) (7 + cdata + 1) m₁ j (inl (omega arith))
                            ∙ ground arith)
                          (λ j a b'.
                            zero_fill_inside (u - 1) (7 + cdata + 1) m₁ j (omega arith)
                              (omega arith)),
                      refl,
                      refl,
                    )
              | inr l ↦ rw l (
                long-Laid (zero_fill (u - 2) (6 + cdata + 2) m₂) lt (ground arith)
                    (zero_fill_outside (u - 2) (6 + cdata + 2) m₂ 6 (inl (omega arith))
                      ∙ ground arith)
                    (zero_fill_outside (u - 2) (6 + cdata + 2) m₂ 7 (inl (omega arith))
                      ∙ ground arith)
                    (λ j a b'.
                      zero_fill_outside (u - 2) (6 + cdata + 2) m₂ j (inl (omega arith))
                      ∙ ground arith)
                    (λ j a b'.
                      zero_fill_inside (u - 2) (6 + cdata + 2) m₂ j (omega arith) (omega arith)),
                refl,
                refl,
              )
            ])
      ]

place_data-place_sized :
    (packsize segsize : ℕ) (short : Bool) (cdata : ℕ) (m : ℕ → ℕ)
    → place_data packsize segsize short cdata m
      ≡ place_sized packsize cdata m
          (packet_size packsize segsize short cdata).0
          (packet_size packsize segsize short cdata).1
unfolding place_data
place_data-place_sized packsize segsize short cdata m = refl

-- For at most 2^(segsize + 5) bytes of data at offset 8 of the send buffer, with segsize at most
-- 7, `fgsenddata` lays the data out as one segment: of a size 2^(k + 4) with k from 1 to segsize
-- + 1 that holds the data, with k in the header, of type DATA if the data fills it, and else
-- SHORTDATA, with the count of unused bytes before the data and zeros behind it. With short
-- packets, on a link with packets of more than 64 bytes, the size is 32 or less than twice the
-- data, so that no smaller one would do; otherwise it is that of the link's packets.
-- `zgadjust_ack` finds the packet's start again from the first bytes of the buffer.
pub place_data_lem :
    (segsize : ℕ) (short : Bool) (cdata : ℕ) (m : ℕ → ℕ)
    → segsize ≤ 7
    → cdata ≤ 2 ^ (segsize + 1 + 4)
    → let p = place_data (2 ^ (segsize + 1 + 4)) segsize short cdata m in
      Laid (read_mem m 8 cdata) p
      × Fits (segsize + 1) cdata (p.seg, p.size)
      × Chosen (2 ^ (segsize + 1 + 4)) short cdata p.size
unfolding place_data
place_data_lem segsize short cdata m le h =
    let f = packet_size-Fits segsize short cdata h in
    let r = packet_size (2 ^ (segsize + 1 + 4)) segsize short cdata in
    let small : 2 ^ (r.0 + 4) ≤ 2 ^ 12 =
      let ex : r.0 + 4 ≤ 12 = omega (arith, f.seg_le) in
      pow-le-pow_right {n = 2} (omega arith) ex in
    let l =
      place_sized-Laid m cdata r.0 r.1 (2 ^ (segsize + 1 + 4)) f.fits
        (packet_size-full segsize short cdata h) (omega (arith, f.size)) in
    rw place_data-place_sized (
      l.0,
      rw (l.1, l.2) f,
      rw l.1 (packet_size-Chosen (2 ^ (segsize + 1 + 4)) segsize short cdata h),
    )
