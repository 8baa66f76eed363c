-- ===== src/T/Blocks.antt =====
-- What the 't' protocol reads, as a function of the bytes that wait.
use taylor_uucp.Base.{
  ℕ, zero, suc, ◌+◌, ◌-◌, ◌^◌, Bool, true, false, List, [], ◌∷◌, Bytes, length, take, drop, get_or,
  ltb, leb, if◌then◌else◌, ◌≤◌, ◌<◌, ◌≡◌, refl, arith,
}
use taylor_uucp.T.{long_of, ctframelen, ctpacksize}

-- The next block and what follows it, or how many bytes are missing, or a length that
-- does not fit an `int` with the header.
pub data Cut : Type 0 where
  missing : ℕ → Cut
  block : Bytes → Bytes → Cut
  overlong : Cut

-- Commands come in packets of a fixed size.
abbrev pub cut_command : Bytes → Cut
cut_command w =
    if ltb (length w) ctpacksize
    then missing (ctpacksize - length w)
    else block (take ctpacksize w) (drop ctpacksize w)

abbrev pub long_at : Bytes → ℕ
long_at w = long_of (get_or w 0 0) (get_or w 1 0) (get_or w 2 0) (get_or w 3 0)

-- File data comes in blocks behind their length.
abbrev pub cut_file : Bytes → Cut
cut_file w =
    let n = long_at w in
    if ltb (length w) ctframelen
    then missing (ctframelen - length w)
    else if leb (2 ^ 31 - ctframelen) n
    then overlong
    else if ltb (length w) (n + ctframelen)
    then missing (n + ctframelen - length w)
    else block (take n (drop ctframelen w)) (drop n (drop ctframelen w))

-- The blocks that are handed on, what is left, and whether one of them ends the loop, or else how
-- many bytes are missing.
pub data Reading : Type 0 where
  exits : List Bytes → Bytes → Reading
  waits : List Bytes → Bytes → ℕ → Reading
  faults : Reading

abbrev pub more : Bytes → Reading → Reading
more b (exits bs w) = exits (b ∷ bs) w
more b (waits bs w n) = waits (b ∷ bs) w n
more b faults = faults

-- A cut, and what the rest of the bytes gives.
abbrev pub after_cut : (Bytes → Bool) → (Bytes → Reading) → Bytes → Cut → Reading
after_cut last rest w (missing n) = waits [] w n
after_cut last rest w overlong = faults
after_cut last rest w (block b w') = elim (last b) [
  | true ↦ exits (b ∷ []) w'
  | false ↦ more b (rest w')
]

-- Block after block, within a number of rounds, until one is the last.
unfoldable pub read_blocks : ℕ → (Bytes → Cut) → (Bytes → Bool) → Bytes → Reading
read_blocks zero cut last w = faults
read_blocks (suc f) cut last w = after_cut last (read_blocks f cut last) w (cut w)

-- The reading of the bytes that wait, during a file or between files.
abbrev pub read_waiting : Bool → (Bytes → Bool) → Bytes → Reading
read_waiting false last w = read_blocks (length w + 1) cut_command last w
read_waiting true last w = read_blocks (length w + 1) cut_file last w

pub cut_command-missing :
    (w : Bytes) → length w < ctpacksize → cut_command w ≡ missing (ctpacksize - length w)
cut_command-missing w h = let t : ltb (length w) ctpacksize ≡ true = ground arith in rw t refl

pub cut_command-block :
    (w : Bytes)
    → ctpacksize ≤ length w
    → cut_command w ≡ block (take ctpacksize w) (drop ctpacksize w)
cut_command-block w h = let t : ltb (length w) ctpacksize ≡ false = ground arith in rw t refl

module _ (w : Bytes) where
  pub cut_file-header : length w < ctframelen → cut_file w ≡ missing (ctframelen - length w)
  cut_file-header h = let t : ltb (length w) ctframelen ≡ true = ground arith in rw t refl

  module _ (h : ctframelen ≤ length w) (n : ℕ) (e : long_at w ≡ n) where
    pub cut_file-overlong : leb (2 ^ 31 - ctframelen) n ≡ true → cut_file w ≡ overlong
    cut_file-overlong k =
        let t : ltb (length w) ctframelen ≡ false = ground arith in rw (t, e, k) refl

    pub cut_file-missing :
        leb (2 ^ 31 - ctframelen) n ≡ false
        → length w < n + ctframelen
        → cut_file w ≡ missing (n + ctframelen - length w)
    cut_file-missing k l =
        let t : ltb (length w) ctframelen ≡ false = ground arith in
        let t' : ltb (length w) (n + ctframelen) ≡ true = ground arith in rw (t, e, k, t') refl

    pub cut_file-block :
        leb (2 ^ 31 - ctframelen) n ≡ false
        → n + ctframelen ≤ length w
        → cut_file w ≡ block (take n (drop ctframelen w)) (drop n (drop ctframelen w))
    cut_file-block k l =
        let t : ltb (length w) ctframelen ≡ false = ground arith in
        let t' : ltb (length w) (n + ctframelen) ≡ false = ground arith in rw (t, e, k, t') refl
