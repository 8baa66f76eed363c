-- ===== src/J.antt =====
-- protj.c: the 'j' protocol, which sends the packets of the 'i' protocol without certain characters.
pub mod Index
pub mod Avoid
pub mod Apply
pub mod RoundTrip
use taylor_uucp.Base.{
  ℕ, zero, suc, ◌+◌, ◌-◌, ◌*◌, ◌/◌, ◌%◌, ◌^◌, Bool, true, false, not, Option, none, some, ◌&&◌,
  ◌||◌, [], ◌∷◌, ◌++◌, Bytes, bit_or, bit_xor, length, ltb, leb, ◌==◌, if◌then◌else◌,
}
use taylor_uucp.Prot.{crecbuflen, update}

abbrev pub first : ℕ
first = 0o136

abbrev pub fourth : ℕ
fourth = 0o75

abbrev pub seventh : ℕ
seventh = 0o100

abbrev pub trailer : ℕ
trailer = 0o176

abbrev pub chdrlen : ℕ
chdrlen = 7

abbrev pub imaxpacksize : ℕ
imaxpacksize = (125 - 32) * 32 + 31

abbrev pub index_offset : ℕ
index_offset = 32

abbrev pub index_max_low : ℕ
index_max_low = 32

abbrev pub index_max_high : ℕ
index_max_high = 94

-- `ISETLENGTH_FIRST` and `ISETLENGTH_SECOND`.
abbrev pub length_first : ℕ → ℕ
length_first i = i / 64 + 32

abbrev pub length_second : ℕ → ℕ
length_second i = i % 64 + 32

-- `memchr`.
abbrev pub has_char : Bytes → ℕ → Bool
has_char [] b = false
has_char (a ∷ z) b = a == b || has_char z b

-- The loop of `fjstart` that adds the other side's characters to this side's.
abbrev pub merge : Bytes → Bytes → Bytes
merge avoid [] = avoid
merge avoid (b ∷ got) = merge (if has_char avoid b then avoid else avoid ++ b ∷ []) got

-- The loop of `fjstart` that looks for a printable character.
abbrev pub has_printable : Bytes → Bool
has_printable [] = false
has_printable (a ∷ z) = leb 32 a && leb a 126 || has_printable z

-- `zJavoid`, from this side's and the other side's characters after `cescape`. `none` is a return of
-- FALSE.
unfoldable pub avoid_chars : Bytes → Bytes → Option Bytes
avoid_chars own got =
    let avoid = merge own got in
    if length avoid == 0 then none else if has_printable avoid then none else some avoid

-- The search of the characters from the third on.
pub is_among : Bytes → ℕ → Bool
is_among [] b = false
is_among (a ∷ za) b = let rest = is_among za b in if a == b then true else rest

-- Whether the byte must be avoided, with the first two characters tested before the others. There is
-- one at least: `fjstart` sees to that.
unfoldable pub is_avoided : Bytes → ℕ → Bool
unfolding is_among
is_avoided [] b = false
is_avoided (bfirst ∷ []) b = b == bfirst
is_avoided (bfirst ∷ bsecond ∷ za) b = b == bfirst || b == bsecond || is_among za b

-- The byte that stands for an avoided one, and the operations that undo it.
pub record Change : Type 0 where
  pub byte : ℕ
  pub f128 : Bool
  pub f32 : Bool

abbrev pub change : ℕ → Change
change b =
    let f128 = not ((b / 2 ^ 7 % 2) == 0) in
    let b₁ = if f128 then b - 2 ^ 7 else b in
    let f32 = not (leb 32 b₁ && not (b₁ == 127)) in
    record { byte = if f32 then bit_xor b₁ 32 else b₁; f128 = f128; f32 = f32 }

-- The two characters for the byte at position `i`.
abbrev pub put_index : ℕ → Bool → Bool → ℕ × ℕ
put_index i f128 f32 =
    let ihigh = i / index_max_low in
    let ilow = i % index_max_low in
    if f128 && not f32
    then (ihigh + index_offset, ilow + index_offset)
    else if f32 && not f128
    then (ihigh + index_offset, ilow + index_max_low + index_offset)
    else if not (ilow == index_max_low - 1)
    then (ihigh + index_offset, ilow + 2 * index_max_low + index_offset)
    else (index_max_high + index_offset, ihigh + index_offset)

-- The loop of `fjsend_data` from position `i` on: the bytes put and the indices.
unfoldable pub encode_from : Bytes → ℕ → Bytes → Bytes × Bytes
encode_from avoid i [] = ([], [])
encode_from avoid i (b ∷ z) =
    let (put, index) = encode_from avoid (i + 1) z in
    if is_avoided avoid b
    then (let ch = change b in
        let at = put_index i ch.f128 ch.f32 in (ch.byte ∷ put, at.0 ∷ at.1 ∷ index))
    else (b ∷ put, index)

-- The packet that `fjsend_data` sends. A character has 8 bits.
unfoldable pub packet : Bytes → Bytes → Bytes
packet avoid z =
    let (put, index) = encode_from avoid 0 z in
    let n = chdrlen + length z + length index + 1 in
    first
    ∷ (length_first n % 2 ^ 8)
    ∷ length_second n
    ∷ fourth
    ∷ (length_first (length z) % 2 ^ 8)
    ∷ length_second (length z)
    ∷ seventh
    ∷ (put ++ index ++ trailer ∷ [])

-- What `fjprocess_data` reads from two characters of an index: the position and the operations.
-- `none` where a character below 32, or one that is negative as a `char`, makes a number negative.
unfoldable pub get_index : ℕ → ℕ → Option (ℕ × Bool × Bool)
get_index h l =
    let ihigh = h - index_offset in
    let ilow = l - index_offset in
    if ltb h index_offset || ltb l index_offset || leb 128 h || leb 128 l
    then none
    else if ihigh == index_max_high
    then some (ilow * index_max_low + index_max_low - 1, true, true)
    else if ltb ilow index_max_low
    then some (ihigh * index_max_low + ilow % index_max_low, true, false)
    else if ltb ilow (2 * index_max_low)
    then some (ihigh * index_max_low + ilow % index_max_low, false, true)
    else some (ihigh * index_max_low + ilow % index_max_low, true, true)

-- `|= 0x80` and `^= 0x20`.
abbrev pub undo : ℕ → Bool → Bool → ℕ
undo b f128 f32 = let b₁ = if f128 then bit_or b (2 ^ 7) else b in if f32 then bit_xor b₁ 32 else b₁

-- The operations on the byte at a position behind `base`.
abbrev pub apply_index : ℕ → (ℕ → ℕ) → ℕ × Bool × Bool → ℕ → ℕ
apply_index base m (i, f128, f32) =
    let iset = (base + i) % crecbuflen in update m iset (undo (m iset) f128 f32)

-- The loop of `fjprocess_data` over the indices, where the data is at `base`.
unfoldable pub index_loop : ℕ → ℕ → ℕ → ℕ → (ℕ → ℕ) → Option (ℕ → ℕ)
index_loop zero base iindex iendindex m = none
index_loop (suc f) base iindex iendindex m = elim (iindex == iendindex) [
  | true ↦ some m
  | false ↦
      let m₁ = update m iindex 0 in
      let i₂ = (iindex + 1) % crecbuflen in
      let m₂ = update m₁ i₂ 0 in
      elim (get_index (m iindex) (m₁ i₂)) [
        | none ↦ none
        | some r ↦ index_loop f base ((i₂ + 1) % crecbuflen) iendindex (apply_index base m₂ r)
      ]
]
