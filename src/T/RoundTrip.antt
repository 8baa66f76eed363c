-- ===== src/T/RoundTrip.antt =====
-- Data that `ftsenddata` sends, read by `ftprocess_data`.
use taylor_uucp.Base.{
  ℕ, zero, suc, ◌+◌, ◌-◌, ◌/◌, ◌%◌, ◌^◌, ◌≤◌, ◌<◌, ◌≡◌, refl, sym, ap, ap₂, ◌∙◌, Bool, true, false,
  List, [], ◌∷◌, ◌++◌, append_assoc, All, Bytes, length, length-append, take-append, drop-append,
  leb, ◌==◌, arith,
}
use taylor_uucp.G.{read_mem}
use taylor_uucp.G.Memory.{length-read_mem, read_mem_congr}
use taylor_uucp.T.{ctbufsize, ctframelen, put_length, frame}
use mathlib.Core.Path.{subst}
use taylor_uucp.Prot.{Conn}
use taylor_uucp.Prot.Room.{contents, IsValid}
use taylor_uucp.T.{Session, process_data}
use taylor_uucp.T.Agree.{collect, Agrees}
use taylor_uucp.T.Refine.{process_data-Agrees}
use taylor_uucp.T.Blocks.{
  block, cut_file, cut_file-block, long_at, exits, more, read_blocks, read_waiting,
}

-- A buffer whose first two bytes are zero, as `ftstart` leaves it, and how much data is in it.
pub record Piece : Type 0 where
  pub memory : ℕ → ℕ
  pub count : ℕ

abbrev pub data_of : Piece → Bytes
data_of p = read_mem p.memory ctframelen p.count

abbrev pub sent_for : Piece → Bytes
sent_for p = frame p.memory p.count

pub record Sendable (p : Piece) : Type 0 where
  pub zero_first : p.memory 0 ≡ 0
  pub zero_second : p.memory 1 ≡ 0
  pub fits : p.count ≤ ctbufsize

-- The end of a file is a block without data.
abbrev pub ends_file : Bytes → Bool
ends_file b = length b == 0

abbrev header : ℕ → Bytes
header n = 0 ∷ 0 ∷ (n / 2 ^ 8 % 256) ∷ (n % 256) ∷ []

sent_for-split : (p : Piece) → Sendable p → sent_for p ≡ header p.count ++ data_of p
sent_for-split p s =
    let m = put_length p.memory p.count in
    let e : p.count + ctframelen ≡ suc (suc (suc (suc p.count))) = omega arith in
    let same : read_mem m 4 p.count ≡ data_of p =
      read_mem_congr m p.memory 4 p.count (λ j a b. ground arith) in
    rw (e, same, s.zero_first, s.zero_second) refl

cut_file-sent :
    (p : Piece) (w : Bytes) → Sendable p → cut_file (sent_for p ++ w) ≡ block (data_of p) w
cut_file-sent p w s =
    let z = data_of p in
    let n = p.count in
    let e : sent_for p ++ w ≡ header n ++ (z ++ w) = ap (λ b. b ++ w) (sent_for-split p s) in
    let l : length z ≡ n = length-read_mem p.memory ctframelen n in
    let fits = s.fits in
    let q : long_at (header n ++ (z ++ w)) ≡ n = omega arith in
    let small : leb (2 ^ 31 - ctframelen) n ≡ false = ground arith in
    let room : n + ctframelen ≤ length (header n ++ (z ++ w)) =
      omega (arith, l, length-append z w) in
    ap cut_file e
    ∙ cut_file-block (header n ++ (z ++ w)) (omega arith) n q small room
    ∙ ap₂ block (take-append z w n (sym l)) (drop-append z w n (sym l))

abbrev pub all_sent : List Piece → Bytes
all_sent [] = []
all_sent (p ∷ ps) = sent_for p ++ all_sent ps

abbrev pub all_data : List Piece → List Bytes
all_data [] = []
all_data (p ∷ ps) = data_of p ∷ all_data ps

abbrev pub Data : Piece → Type 0
Data p = Sendable p × (0 < p.count)

read_blocks-sent :
    (ps : List Piece) (p : Piece) (w : Bytes) (f : ℕ)
    → All Data ps
    → Sendable p
    → p.count ≡ 0
    → length ps < f
    → read_blocks f cut_file ends_file (all_sent ps ++ (sent_for p ++ w))
      ≡ exits (all_data ps ++ [] ∷ []) w
unfolding read_blocks
read_blocks-sent ps p w zero a s e l = absurd (omega arith)
read_blocks-sent [] p w (suc f) a s e l =
    let k = cut_file-sent p w s in
    let d : data_of p ≡ [] = ap (λ n. read_mem p.memory ctframelen n) e in rw (k, d) refl
read_blocks-sent (q ∷ ps) p w (suc f) a s e l =
    let rest = all_sent ps ++ (sent_for p ++ w) in
    let k : cut_file (all_sent (q ∷ ps) ++ (sent_for p ++ w)) ≡ block (data_of q) rest =
      ap cut_file (append_assoc (sent_for q) (all_sent ps) (sent_for p ++ w))
      ∙ cut_file-sent q rest a.0.0 in
    let pos = a.0.1 in
    let n : ends_file (data_of q) ≡ false =
      rw (length-read_mem q.memory ctframelen q.count) (ground arith) in
    let ih = read_blocks-sent ps p w f a.1 s e (omega arith) in
    rw k (
      ap
        (λ x. elim x [
          | true ↦ exits (data_of q ∷ []) rest
          | false ↦ more (data_of q) (read_blocks f cut_file ends_file rest)
        ])
        n
      ∙ ap (more (data_of q)) ih)

length-sent_for : (p : Piece) → length (sent_for p) ≡ p.count + ctframelen
length-sent_for p = length-read_mem (put_length p.memory p.count) 0 (p.count + ctframelen)

length-all_sent : (ps : List Piece) → length ps ≤ length (all_sent ps)
length-all_sent [] = omega arith
length-all_sent (p ∷ ps) =
    omega (arith, length-append (sent_for p) (all_sent ps), length-sent_for p, length-all_sent ps)

read_waiting-sent :
    (ps : List Piece) (p : Piece) (w : Bytes)
    → All Data ps
    → Sendable p
    → p.count ≡ 0
    → read_waiting true ends_file (all_sent ps ++ (sent_for p ++ w))
      ≡ exits (all_data ps ++ [] ∷ []) w
read_waiting-sent ps p w a s e =
    let z = sent_for p ++ w in
    read_blocks-sent ps p w (length (all_sent ps ++ z) + 1) a s e
      (omega (arith, length-append (all_sent ps) z, length-all_sent ps))

module _ {c : Conn} where
  -- Buffers of at most 1024 bytes of data each, none empty, whose first two bytes are zero as
  -- `ftstart` leaves them, and then one without data: while a file is received, with the receive
  -- buffer's indices in range and its contents what `ftsenddata` sends for these buffers and any
  -- bytes behind, and a caller that ends the loop at an empty block, `ftprocess_data` hands on
  -- exactly the data of each and then the empty block that ends the file, asks to leave the loop,
  -- and leaves the bytes behind, its indices in range.
  pub process_data-sent :
      (ps : List Piece) (p : Piece) (w : Bytes) (s : Session c (List Bytes))
      → All Data ps
      → Sendable p
      → p.count ≡ 0
      → s.file ≡ true
      → IsValid s.port
      → contents s.port ≡ all_sent ps ++ (sent_for p ++ w)
      → Agrees s.host (exits (all_data ps ++ [] ∷ []) w) (process_data (collect ends_file) s)
  process_data-sent ps p w s a h e file v k =
      let r : read_waiting s.file ends_file (contents s.port) ≡ exits (all_data ps ++ [] ∷ []) w =
        ap₂ (λ f z. read_waiting f ends_file z) file k ∙ read_waiting-sent ps p w a h e in
      subst (λ x. Agrees s.host x (process_data (collect ends_file) s)) r
        (process_data-Agrees ends_file s v)
