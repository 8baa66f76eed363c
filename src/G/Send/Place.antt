-- ===== src/G/Send/Place.antt =====
-- protg.c: how `fgsenddata` lays a packet out in its send buffer.
pub mod Fit
pub mod Layout
use taylor_uucp.Base.{
  ℕ, zero, suc, ◌+◌, ◌-◌, ◌*◌, ◌/◌, ◌%◌, ◌^◌, Bool, true, ◌&&◌, bit_or, ltb, leb, ◌==◌,
  if◌then◌else◌,
}
use taylor_uucp.Prot.{update}
use taylor_uucp.G.{dle, data_type, shortdata}

-- `bzero`.
unfoldable pub zero_fill : ℕ → ℕ → (ℕ → ℕ) → ℕ → ℕ
zero_fill zero i m = m
zero_fill (suc n) i m = zero_fill n (i + 1) (update m i 0)

-- The buffer, the offset of the header in it, and `itt`, `iseg` and `csize`.
pub record Placed : Type 0 where
  pub mem : ℕ → ℕ
  pub header : ℕ
  pub tt : ℕ
  pub seg : ℕ
  pub size : ℕ

-- The loop that looks for the smallest size, doubling it; the data's length bounds the rounds.
unfoldable pub fit : ℕ → ℕ → ℕ → ℕ → ℕ × ℕ
fit zero seg size cdata = (seg, size)
fit (suc f) seg size cdata =
    let next = fit f (seg + 1) (size * 2) cdata in if ltb size cdata then next else (seg, size)

-- `iseg` and `csize`.
unfoldable pub packet_size : ℕ → ℕ → Bool → ℕ → ℕ × ℕ
unfolding fit
packet_size packsize segsize short cdata =
    if ltb cdata packsize && (ltb 64 packsize && short)
    then fit cdata 1 32 cdata
    else (segsize + 1, packsize)

-- The bytes before the header are made zero, and the first two header bytes are written.
abbrev pub start_header : (ℕ → ℕ) → ℕ → ℕ → ℕ → ℕ → ℕ → ℕ
start_header m z clr₁ clr₂ seg = update (update (update (update m clr₁ 0) clr₂ 0) z dle) (z + 1) seg

-- No byte of the packet is left out.
abbrev pub is_full : ℕ → ℕ → ℕ → Bool
is_full packsize size cdata = if ltb cdata packsize then size == cdata else true

-- `fgsenddata` from the test of the size up to the checksum: the data is at offset 8 of the
-- buffer `m`. A short packet has one or two bytes before its data that say how many bytes it leaves
-- out, and zeros behind it.
unfoldable pub place_sized : ℕ → ℕ → (ℕ → ℕ) → ℕ → ℕ → Placed
unfolding zero_fill
place_sized packsize cdata m seg size =
    let cshort = size - cdata in
    let m₁ = update (update m 7 (cshort % 2 ^ 8)) 6 0 in
    let m₁' = if ltb 1 cshort then zero_fill (cshort - 1) (7 + cdata + 1) m₁ else m₁ in
    let m₂ = update (update m 6 (bit_or 0x80 (cshort % 2 ^ 7))) 7 (cshort / 2 ^ 7 % 2 ^ 8) in
    let m₂' = zero_fill (cshort - 2) (6 + cdata + 2) m₂ in
    if is_full packsize size cdata
    then (record {
      mem = start_header m 2 1 0 seg;
      header = 2;
      tt = data_type;
      seg = seg;
      size = size;
    })
    else if leb cshort 127
    then (record {
      mem = start_header m₁' 1 0 1 seg;
      header = 1;
      tt = shortdata;
      seg = seg;
      size = size;
    })
    else (record {
      mem = start_header m₂' 0 0 0 seg;
      header = 0;
      tt = shortdata;
      seg = seg;
      size = size;
    })

-- `fgsenddata` up to the checksum.
unfoldable pub place_data : ℕ → ℕ → Bool → ℕ → (ℕ → ℕ) → Placed
unfolding packet_size place_sized
place_data packsize segsize short cdata m =
    let r = packet_size packsize segsize short cdata in place_sized packsize cdata m r.0 r.1
