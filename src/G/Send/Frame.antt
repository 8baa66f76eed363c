-- ===== src/G/Send/Frame.antt =====
-- The packet that `fgsenddata` leaves in its send buffer, as bytes.
use taylor_uucp.Base.{
  ℕ, ◌+◌, ◌^◌, ◌≤◌, ◌≡◌, sym, ap, ap₂, ◌∙◌, Bool, some, ◌++◌, Bytes, length, arith,
}
use taylor_uucp.G.{framelen, read_mem, packet_start}
use taylor_uucp.G.Checksum.{checksum, igchecksum, igchecksum_lem}
use taylor_uucp.G.Frame.{data_header, IsFramed, read_mem-IsFramed}
use taylor_uucp.G.Memory.{length-read_mem, read_mem_congr}
use taylor_uucp.G.Payload.{segment, packlen-bounds}
use taylor_uucp.G.Send.{end_header}
use taylor_uucp.G.Send.Place.{Placed, place_data}
use taylor_uucp.G.Send.Place.Layout.{Laid, place_data_lem}

module _ {z : Bytes} {p : Placed} (l : Laid z p) (ctl chk : ℕ) where
  end_header-IsFramed : IsFramed (end_header p.header ctl chk p.mem) p.header p.seg ctl chk
  unfolding end_header packet_start
  end_header-IsFramed = record {
    start = ground (arith, l.start, l.byte_dle, l.header_le);
    byte_dle = ground (arith, l.byte_dle);
    byte_k = ground (arith, l.byte_k);
    byte_low = ground arith;
    byte_high = ground arith;
    byte_control = ground arith;
    byte_xor = ground (arith, l.byte_k);
  }

  end_header_above :
      (j : ℕ) → p.header + framelen ≤ j → end_header p.header ctl chk p.mem j ≡ p.mem j
  unfolding end_header
  end_header_above j h = ground arith

  -- The bytes that are sent for a packet that has been laid out.
  pub end_header-bytes :
      read_mem (end_header p.header ctl chk p.mem) p.header (framelen + p.size)
      ≡ data_header p.seg ctl chk ++ segment p.size z
  end_header-bytes =
      read_mem-IsFramed p.size end_header-IsFramed
      ∙ ap (λ w. data_header p.seg ctl chk ++ w)
          (read_mem_congr (end_header p.header ctl chk p.mem) p.mem (p.header + framelen) p.size
              (λ j a b. end_header_above j a)
            ∙ l.content)

-- For at most 2^(segsize + 5) bytes of data at offset 8 of the send buffer, with segsize at most
-- 7, `fgsenddata` computes the checksum of the whole segment that carries the data, and once it
-- has completed the header for any control byte, the bytes from the start of the packet are the
-- six header bytes with that checksum, followed by the segment.
pub place_data-bytes :
    (segsize : ℕ) (short : Bool) (cdata ctl : ℕ) (m : ℕ → ℕ)
    → segsize ≤ 7
    → cdata ≤ 2 ^ (segsize + 1 + 4)
    → let p = place_data (2 ^ (segsize + 1 + 4)) segsize short cdata m in
      let seg = segment p.size (read_mem m 8 cdata) in
      (igchecksum (read_mem p.mem (p.header + framelen) p.size) p.size ≡ some (checksum seg))
      × (read_mem (end_header p.header ctl (checksum seg) p.mem) p.header (framelen + p.size)
          ≡ data_header p.seg ctl (checksum seg) ++ seg)
place_data-bytes segsize short cdata ctl m le h =
    let p = place_data (2 ^ (segsize + 1 + 4)) segsize short cdata m in
    let (l, f, _) = place_data_lem segsize short cdata m le h in
    let seg = segment p.size (read_mem m 8 cdata) in
    let same : read_mem p.mem (p.header + framelen) p.size ≡ seg = l.content in
    let size : length seg ≡ p.size =
      ap length (sym same) ∙ length-read_mem p.mem (p.header + framelen) p.size in
    let b = packlen-bounds p.seg (omega (arith, f.seg_le)) in
    let chk : igchecksum seg (length seg) ≡ some (checksum seg) =
      igchecksum_lem (2 ^ (p.seg + 2)) seg (omega (arith, f.size, size, b)) (omega (arith, b))
        (omega (arith, f.size, size, b)) in
    (ap₂ igchecksum same (sym size) ∙ chk, end_header-bytes l ctl (checksum seg))
