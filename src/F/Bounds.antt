-- ===== src/F/Bounds.antt =====
-- What `ffsenddata` puts on the line: printable characters, and how many.
use taylor_uucp.Base.{
  ℕ, ◌*◌, ◌≤◌, ◌<◌, inl, inr, [], ◌∷◌, Bytes, All, All-append, AllBytes, length, length-append, leb,
  Bool-cases, arith,
}
use taylor_uucp.F.{encode_byte, encode}

-- A printable character, in seven bits.
abbrev pub Printable : ℕ → Type 0
Printable c = (32 ≤ c) × (c ≤ 126)

encode_byte-Printable :
    (b : ℕ)
    → b < 256
    → All Printable (encode_byte b) × (1 ≤ length (encode_byte b)) × (length (encode_byte b) ≤ 2)
unfolding encode_byte
encode_byte-Printable b h = elim (Bool-cases (leb b 127)) [
  | inl t ↦ rw t (elim (Bool-cases (leb b 31)) [
    | inl t' ↦ rw t' (ground arith)
    | inr t' ↦ rw t' (elim (Bool-cases (leb b 121)) [
      | inl t'' ↦ rw t'' (ground arith)
      | inr t'' ↦ rw t'' (ground arith)
    ])
  ])
  | inr t ↦ rw t (elim (Bool-cases (leb b 159)) [
    | inl t' ↦ rw t' (ground arith)
    | inr t' ↦ rw t' (elim (Bool-cases (leb b 249)) [
      | inl t'' ↦ rw t'' (ground arith)
      | inr t'' ↦ rw t'' (ground arith)
    ])
  ])
]

-- For bytes below 256, every character that `ffsenddata` sends is printable in seven bits, and
-- there are at least as many as bytes and at most twice as many, which is the room in `ab` for a
-- full buffer.
pub encode-Printable :
    (z : Bytes)
    → AllBytes z
    → All Printable (encode z) × (length z ≤ length (encode z)) × (length (encode z) ≤ 2 * length z)
unfolding encode
encode-Printable [] h = (tt, omega arith, omega arith)
encode-Printable (b ∷ z) (hb, h) =
    let (p, q, r) = encode_byte-Printable b hb in
    let (p', q', r') = encode-Printable z h in
    let l = length-append (encode_byte b) (encode z) in
    (
      All-append Printable (encode_byte b) (encode z) p p',
      omega (arith, q, q', l),
      omega (arith, r, r', l),
    )
