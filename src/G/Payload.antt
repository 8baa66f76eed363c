-- ===== src/G/Payload.antt =====
-- The data part of a 'g' packet, as bytes.
use taylor_uucp.Base.{
  ℕ, zero, suc, ◌+◌, ◌*◌, ◌<◌, ◌≡◌, arith, ◌-◌, ◌/◌, ◌%◌, ◌^◌, [], ◌∷◌, ◌++◌, Bytes, length,
  replicate, bit_or, leb, ◌==◌, if◌then◌else◌,
}
use taylor_uucp.G.{data_type, shortdata, packlen}

-- The `u` bytes of a segment that are not used, as the comment on SHORTDATA in protg.c writes
-- them: in one byte up to 0x7f, else in two.
abbrev pub unused : ℕ → Bytes
unused u = if leb u 127 then u ∷ [] else bit_or 0x80 (u % 2 ^ 7) ∷ (u / 2 ^ 7) ∷ []

-- The segment of `size` bytes that carries `z`.
abbrev pub segment : ℕ → Bytes → Bytes
segment size z =
    let u = size - length z in
    if length z == size then z else unused u ++ z ++ replicate (u - length (unused u)) 0

abbrev pub segment_type : ℕ → Bytes → ℕ
segment_type size z = if length z == size then data_type else shortdata

-- The sizes that a header can name.
pub packlen-bounds :
    (k : ℕ)
    → k < 9
    → (0 < packlen k) × (packlen k < 2 ^ 64) × (0 < 2 ^ (k + 2)) × (packlen k ≡ 4 * 2 ^ (k + 2))
packlen-bounds zero h = omega arith
packlen-bounds (suc zero) h = omega arith
packlen-bounds (suc (suc zero)) h = omega arith
packlen-bounds (suc (suc (suc zero))) h = omega arith
packlen-bounds (suc (suc (suc (suc zero)))) h = omega arith
packlen-bounds (suc (suc (suc (suc (suc zero))))) h = omega arith
packlen-bounds (suc (suc (suc (suc (suc (suc zero)))))) h = omega arith
packlen-bounds (suc (suc (suc (suc (suc (suc (suc zero))))))) h = omega arith
packlen-bounds (suc (suc (suc (suc (suc (suc (suc (suc zero)))))))) h = omega arith
packlen-bounds (suc (suc (suc (suc (suc (suc (suc (suc (suc n))))))))) h = absurd (omega arith)
