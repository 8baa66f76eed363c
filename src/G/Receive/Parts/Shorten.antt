-- ===== src/G/Receive/Parts/Shorten.antt =====
-- A short packet's data: what is left between the count of unused bytes and those bytes.
use taylor_uucp.Base.{
  ℕ, ◌+◌, ◌-◌, ◌≤◌, ◌≡◌, inl, inr, refl, sym, ap, ◌∙◌, none, ◌++◌, append-nil, Bytes, take, drop,
  drop-append_le, drop-append_ge, take-append_le, take-append_ge, ltb, leb, ltb→lt, if◌then◌else◌,
  Bool-cases, arith,
}
use taylor_uucp.G.{read_mem}
use taylor_uucp.G.Memory.{length-read_mem, drop-read_mem, take-read_mem}
use taylor_uucp.G.Receive.Parts.{Blocks, at_second, shorten}

-- The bytes of the blocks, one after the other.
abbrev pub block_bytes : (ℕ → ℕ) → Blocks → Bytes
block_bytes m b = read_mem m b.first b.cfirst ++ read_mem m (at_second b.second) b.csecond

-- The first half of `shorten`: the bytes of the count are skipped.
abbrev skip : ℕ → Blocks → Blocks
skip move b =
    if ltb move b.cfirst
    then record b { first = b.first + move; cfirst = b.cfirst - move }
    else (record {
      first = at_second b.second + (move - b.cfirst);
      cfirst = b.csecond - (move - b.cfirst);
      second = b.second;
      csecond = 0;
    })

-- The second half: `keep` bytes are kept.
abbrev trim : ℕ → ℕ → Blocks → Blocks
trim short move b =
    if leb short (b.csecond + move)
    then record b { csecond = b.csecond + move - short }
    else record b { cfirst = b.cfirst + b.csecond + move - short; csecond = 0 }

shorten-trim : (short move : ℕ) (b : Blocks) → shorten short move b ≡ trim short move (skip move b)
unfolding shorten
shorten-trim short move b = refl

module _ (m : ℕ → ℕ) where
  skip_bytes :
      (move : ℕ) (b : Blocks)
      → move ≤ b.cfirst + b.csecond
      → block_bytes m (skip move b) ≡ drop move (block_bytes m b)
  skip_bytes move b h = elim (Bool-cases (ltb move b.cfirst)) [
    | inl t ↦ rw t (
        sym (
          drop-append_le move (read_mem m b.first b.cfirst) _
            (omega (arith, length-read_mem m b.first b.cfirst, ltb→lt move b.cfirst t))
          ∙ ap (λ w. w ++ read_mem m (at_second b.second) b.csecond)
              (drop-read_mem move b.cfirst m b.first (ground arith))))
    | inr t ↦ rw t (
        append-nil _
        ∙ sym (
            drop-append_ge move (move - b.cfirst) (read_mem m b.first b.cfirst) _
              (rw (length-read_mem m b.first b.cfirst) (ground arith))
            ∙ drop-read_mem (move - b.cfirst) b.csecond m (at_second b.second) (omega arith)))
  ]

  trim_bytes :
      (short move keep : ℕ) (b : Blocks)
      → move ≤ short
      → keep + short ≡ b.cfirst + b.csecond + move
      → block_bytes m (trim short move b) ≡ take keep (block_bytes m b)
  trim_bytes short move keep b h e = elim (Bool-cases (leb short (b.csecond + move))) [
    | inl t ↦ rw t (
        let k : keep ≡ b.cfirst + (b.csecond + move - short) = ground arith in
        sym (
          take-append_ge keep (b.csecond + move - short) (read_mem m b.first b.cfirst) _
            (rw (length-read_mem m b.first b.cfirst) k)
          ∙ ap (λ w. read_mem m b.first b.cfirst ++ w)
              (take-read_mem (b.csecond + move - short) b.csecond m (at_second b.second)
                (omega arith))))
    | inr t ↦ rw t (
        let k : keep ≡ b.cfirst + b.csecond + move - short = omega arith in
        let le : keep ≤ b.cfirst = ground arith in
        append-nil _
        ∙ sym (
            take-append_le keep (read_mem m b.first b.cfirst) _
              (rw (length-read_mem m b.first b.cfirst) le)
            ∙ take-read_mem keep b.cfirst m b.first le
            ∙ ap (λ n. read_mem m b.first n) k))
  ]

  -- For a count `short` of unused bytes that is at least the `move` bytes that hold it, and
  -- blocks of `keep + short` bytes together, the pointer arithmetic of `fgprocess_data` for a
  -- short packet leaves blocks that hold the `keep` bytes behind the first `move`, wherever the
  -- blocks are divided.
  pub shorten_bytes :
      (short move keep : ℕ) (b : Blocks)
      → move ≤ short
      → keep + short ≡ b.cfirst + b.csecond
      → block_bytes m (shorten short move b) ≡ take keep (drop move (block_bytes m b))
  shorten_bytes short move keep b h e = rw shorten-trim (
      trim_bytes short move keep (skip move b) h (ground arith)
      ∙ ap (λ w. take keep w) (skip_bytes move b (omega arith)))

-- Where `zsecond` is NULL nothing is read through it.
abbrev pub SecondOk : Blocks → Type 0
SecondOk b = (b.second ≡ none) → b.csecond ≡ 0

second-trim : (short move : ℕ) (b : Blocks) → (trim short move (skip move b)).second ≡ b.second
second-trim short move b = ground arith

csecond-trim :
    (short move : ℕ) (b : Blocks)
    → move ≤ short
    → b.csecond ≡ 0
    → (trim short move (skip move b)).csecond ≡ 0
csecond-trim short move b h e = ground arith

pub shorten-SecondOk :
    (short move : ℕ) (b : Blocks) → move ≤ short → SecondOk b → SecondOk (shorten short move b)
shorten-SecondOk short move b h ok =
    rw shorten-trim (λ e. csecond-trim short move b h (ok (sym (second-trim short move b) ∙ e)))
