-- ===== src/G/Receive/Parts.antt =====
-- protg.c: the parts of `fgprocess_data` that look at the receive buffer and change nothing else.
pub mod Data
pub mod Ring
pub mod Short
pub mod Shorten
use taylor_uucp.Base.{
  ℕ, zero, suc, ◌+◌, ◌-◌, ◌*◌, ◌/◌, ◌%◌, ◌^◌, Bool, true, false, ◌||◌, Option, none, some, ◌>>=◌,
  [], ◌∷◌, Bytes, get_or, bit_xor, ltb, leb, ◌==◌, ◌!=◌, if◌then◌else◌,
}
use taylor_uucp.Prot.{Conn, Port, crecbuflen}
use taylor_uucp.G.{dle, framelen, control_tt, altchan, sub_aaaa, header_xor, read_mem}
use taylor_uucp.G.Checksum.{igchecksum, igchecksum2}

-- The six header bytes, `ab`.
pub record Header : Type 0 where
  pub byte_dle : ℕ
  pub k : ℕ
  pub check_low : ℕ
  pub check_high : ℕ
  pub control : ℕ
  pub xor : ℕ

-- `zfirst`, `cfirst`, `zsecond` and `csecond`: offsets in `abPrecbuf` and counts.
pub record Blocks : Type 0 where
  pub first : ℕ
  pub cfirst : ℕ
  pub second : Option ℕ
  pub csecond : ℕ

-- `memchr` for the start of a packet, among the `n` bytes from `i` on.
pub find_byte : ℕ → (ℕ → ℕ) → ℕ → Option ℕ
find_byte zero m i = none
find_byte (suc n) m i = if m i == dle then some i else find_byte n m (i + 1)

-- The loop that copies the first bytes into `ab`.
pub gather : ℕ → (ℕ → ℕ) → ℕ → ℕ → Bytes
gather zero m i e = []
gather (suc n) m i e = if i == e then [] else m i ∷ gather n m ((i + 1) % crecbuflen) e

abbrev pub header_of : Bytes → Header
header_of ab = record {
  byte_dle = get_or ab 0 0;
  k = get_or ab 1 0;
  check_low = get_or ab 2 0;
  check_high = get_or ab 3 0;
  control = get_or ab 4 0;
  xor = get_or ab 5 0;
}

-- The test that these six bytes do not start a packet.
unfoldable pub bad_header : Header → Bool
bad_header h =
    h.byte_dle != dle
    || ltb h.k 1
    || ltb 9 h.k
    || h.xor != header_xor h.k h.check_low h.check_high h.control
    || control_tt h.control == altchan

module _ {c : Conn} where
  -- The bytes up to the end of the data or of the array.
  abbrev pub contiguous : Port c → ℕ
  contiguous p =
      if ltb p.prec_end p.prec_start then crecbuflen - p.prec_start else p.prec_end - p.prec_start

  abbrev pub at_dle : Port c → Option ℕ → Bool × Port c
  at_dle p none = (false, record p { prec_start = (p.prec_start + contiguous p) % crecbuflen })
  at_dle p (some i) = (true, record p { prec_start = i })

  -- Whether a packet may start here, and the buffer moved up to it.
  unfoldable pub seek_dle : Port c → Bool × Port c
  unfolding find_byte
  seek_dle p =
      if p.prec_buf p.prec_start != dle
      then at_dle p (find_byte (contiguous p) p.prec_buf p.prec_start)
      else (true, p)

  -- `cinbuf`: the bytes behind the header.
  abbrev pub cinbuf : Port c → ℕ
  cinbuf p =
      (if ltb p.prec_end p.prec_start
        then p.prec_end + crecbuflen - p.prec_start
        else p.prec_end - p.prec_start)
      - framelen

  -- The data pointers of a packet with `want` bytes of data.
  pub data_blocks : Port c → ℕ → Blocks
  data_blocks p want =
      let behind = p.prec_start + framelen in
      let whole : Blocks = record { first = behind; cfirst = want; second = none; csecond = 0 } in
      let room = crecbuflen - behind in
      if leb p.prec_start p.prec_end
      then whole
      else if leb want room
      then whole
      else if ltb 0 room
      then record { first = behind; cfirst = room; second = some 0; csecond = want - room }
      else record { first = behind - crecbuflen; cfirst = want; second = none; csecond = 0 }

  abbrev pub first_block : Port c → Blocks → Bytes
  first_block p b = read_mem p.prec_buf b.first b.cfirst

  -- Reading through `zsecond` is a fault where it is NULL, unless nothing is read.
  abbrev pub second_at : Port c → Option ℕ → ℕ → Option Bytes
  second_at p none zero = some []
  second_at p none (suc n) = none
  second_at p (some i) n = some (read_mem p.prec_buf i n)

  pub second_block : Port c → Blocks → Option Bytes
  second_block p b = second_at p b.second b.csecond

  -- `icheck`.
  pub block_checksum : Port c → Blocks → Option ℕ
  unfolding igchecksum igchecksum2 second_block
  block_checksum p b =
      if b.csecond == 0
      then igchecksum (first_block p b) b.cfirst
      else (do z ← second_block p b; igchecksum2 (first_block p b) b.cfirst z b.csecond)

  -- `idatcheck` of a data packet.
  pub block_check : Port c → Blocks → ℕ → Option ℕ
  unfolding block_checksum
  block_check p b ctl = do icheck ← block_checksum p b; some (sub_aaaa (bit_xor icheck ctl))

  -- `cbyte2`.
  pub next_byte : Port c → Blocks → Option ℕ
  next_byte p b =
      if ltb 1 b.cfirst
      then some (p.prec_buf (b.first + 1))
      else elim b.second [ none ↦ none | some i ↦ some (p.prec_buf i) ]

  -- The count of bytes that a short packet leaves out, and how many bytes hold it.
  pub short_count : Port c → Blocks → Option (ℕ × ℕ)
  unfolding next_byte
  short_count p b =
      let b₀ = p.prec_buf b.first in
      if b₀ / 2 ^ 7 % 2 == 0
      then some (b₀ % 2 ^ 8, 1)
      else elim (next_byte p b) [ none ↦ none | some b₁ ↦ some (b₀ % 2 ^ 7 + b₁ * 2 ^ 7, 2) ]

-- The offset of `zsecond`.
abbrev pub at_second : Option ℕ → ℕ
at_second none = 0
at_second (some i) = i

-- The pointers behind the bytes of the count, and then without the bytes left out. The counts are
-- C's signed integers: `csecond - (cshort - cmove)` is written without the inner difference, and a
-- count that would be negative is 0, as the code makes `cfirst`.
pub shorten : ℕ → ℕ → Blocks → Blocks
shorten short move b =
    let b' =
      if ltb move b.cfirst
      then record b { first = b.first + move; cfirst = b.cfirst - move }
      else (record {
        first = at_second b.second + (move - b.cfirst);
        cfirst = b.csecond - (move - b.cfirst);
        second = b.second;
        csecond = 0;
      }) in
    if leb short (b'.csecond + move)
    then record b' { csecond = b'.csecond + move - short }
    else record b' { cfirst = b'.cfirst + b'.csecond + move - short; csecond = 0 }
