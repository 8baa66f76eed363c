-- ===== src/F/Decode.antt =====
-- protf.c: `ffprocess_data`, which takes commands and file data out of the receive buffer, and
-- `ffwait`.
pub mod Reads
pub mod Ring
pub mod Runs
use taylor_uucp.Base.{
  ℕ, zero, suc, ◌+◌, ◌-◌, ◌%◌, ◌^◌, Bool, true, false, not, ◌&&◌, ◌||◌, [], ◌∷◌, Bytes, length, ltb,
  leb, ◌==◌, ◌!=◌, if◌then◌else◌,
}
use taylor_uucp.Base.Outcome.{Outcome, done, failed, stuck, ◌then◌}
use taylor_uucp.Prot.{Conn, Port, crecbuflen, update, receive_data}
use taylor_uucp.G.{read_mem}
use taylor_uucp.F.{Session, add_check, on_line}

-- What a character of file data is: an illegal byte, an illegal pair, a special character, a byte
-- of the file (as an `int`, in 32 bits), or the second of the pair before the checksum.
pub data Char : Type 0 where
  illegal : Char
  illegal_pair : Char
  special : ℕ → Char
  byte : ℕ → Char
  finish : Char

-- `bnext`.
unfoldable pub shifted : ℕ → ℕ → ℕ
shifted sp b =
    if sp == 0o172
    then (b + 2 ^ 32 - 0o100) % 2 ^ 32
    else if sp == 0o173 || sp == 0o174
    then b + 0o100
    else if sp == 0o175
    then b + 0o200
    else if sp == 0o176
    then b + 0o300
    else b

unfoldable pub classify : ℕ → ℕ → Char
unfolding shifted
classify sp b =
    if ltb b 0o40 || ltb 0o176 b
    then illegal
    else if leb 0o172 b
    then (if sp != 0
        then (if sp != 0o176 || b != 0o176 then illegal_pair else finish)
        else special b)
    else byte (shifted sp b)

-- What the inner loop leaves: the bytes from `zstart` to `zto`, the count from `zstart` to `zfrom`,
-- `bFspecial` and `itmpchk`, and whether it stopped at the pair before the checksum.
pub record Scan : Type 0 where
  pub out : Bytes
  pub used : ℕ
  pub special_last : ℕ
  pub check : ℕ
  pub ended : Bool

abbrev pub count_one : Scan → Scan
count_one r = record r { used = r.used + 1 }

abbrev pub put_byte : ℕ → Scan → Scan
put_byte n r = record r { out = n % 2 ^ 8 ∷ r.out; used = r.used + 1 }

-- The inner loop. It writes the decoded bytes over those it has read, which nothing reads again.
unfoldable pub scan : ℕ → ℕ → Bytes → Scan
unfolding classify
scan sp chk [] = record { out = []; used = 0; special_last = sp; check = chk; ended = false }
scan sp chk (x ∷ z) = elim (classify sp (x % 2 ^ 7)) [
  | illegal ↦ count_one (scan sp chk z)
  | illegal_pair ↦ count_one (scan 0 chk z)
  | special b ↦ count_one (scan b chk z)
  | byte n ↦ put_byte n (scan 0 (add_check chk n) z)
  | finish ↦ record { out = []; used = 1; special_last = sp; check = chk; ended = true }
]

-- The loop that looks for the end of a command: the buffer without parity bits, the index where
-- it stopped, and whether that is the end.
pub find_return : ℕ → (ℕ → ℕ) → ℕ → ℕ → (ℕ → ℕ) × ℕ × Bool
find_return zero m i e = (m, i, false)
find_return (suc f) m i e =
    let m' = update m i (m i % 2 ^ 7) in
    elim (ltb i crecbuflen && i != e) [
      | false ↦ (m, i, false)
      | true ↦ elim (m' i == 13) [ true ↦ (m', i, true) | false ↦ find_return f m' (i + 1) e ]
    ]

-- `fgot_data`, whose value is whether it sets `*pfexit`.
abbrev pub GotData : Conn → Type 0 → Type 0
GotData c H = Bytes → Session c H → Outcome (Session c H) Bool

-- The number of bytes in one piece, `c`.
abbrev pub run_length : {c : Conn} → Port c → ℕ
run_length p =
    if ltb p.prec_end p.prec_start then crecbuflen - p.prec_start else p.prec_end - p.prec_start

module _ {c : Conn} {H : Type 0} where
  -- The read index moved on.
  abbrev pub start_at : ℕ → Session c H → Session c H
  start_at i s = record s { port = record (s.port) { prec_start = i % crecbuflen } }

  -- Commands. The value is `*pfexit` and `*pcneed`.
  pub command_data : ℕ → GotData c H → Bool → Session c H → Outcome (Session c H) (Bool × ℕ)
  unfolding find_return
  command_data zero got exit s = stuck
  command_data (suc f) got exit s = elim (s.port.prec_start == s.port.prec_end) [
    | true ↦ done (exit, 1) s
    | false ↦
        let start = s.port.prec_start in
        let (m, i, found) = find_return crecbuflen s.port.prec_buf start s.port.prec_end in
        let m₀ = update m i 0 in
        let s₀ = record s { port = record (s.port) { prec_buf = m₀ } } in
        let s₁ = record s { port = record (s.port) { prec_buf = m } } in
        elim found [
          | true ↦ got (read_mem m₀ start (i - start + 1)) (start_at (i + 1) s₀) then λ x s'.
              done (exit || x, 0) s'
          | false ↦ got (read_mem m start (i - start)) s₁ then λ x s'.
              command_data f got (exit || x) (start_at i s')
        ]
  ]

  -- The data of a run goes to `fgot_data` unless there is none.
  pub pass : GotData c H → Bool → Bytes → Session c H → Outcome (Session c H) Bool
  pass got exit [] s = done exit s
  pass got exit (b ∷ z) s = got (b ∷ z) s then λ x s'. done (exit || x) s'

  -- At the pair before the checksum.
  pub end_of_file : GotData c H → Bool → Scan → Session c H → Outcome (Session c H) (Bool × ℕ)
  unfolding pass
  end_of_file got exit r s =
      let start = s.port.prec_start in
      let s₁ = record s {
        special = r.special_last;
        rec_bytes = if length r.out == 0 then s.rec_bytes else s.rec_bytes + (r.used - 2);
        rec_data = s.rec_data + length r.out;
      } in
      pass got exit r.out s₁ then λ x s₂.
      got [] (record (start_at (start + r.used) s₂) { check = r.check }) then λ y s₃.
      done (x || y, 0) s₃

  -- File data, with `itmpchk`.
  pub file_data : ℕ → GotData c H → Bool → ℕ → Session c H → Outcome (Session c H) (Bool × ℕ)
  unfolding scan end_of_file
  file_data zero got exit chk s = stuck
  file_data (suc f) got exit chk s = elim (s.port.prec_start == s.port.prec_end) [
    | true ↦ done (exit, if s.special == 0o176 then 6 else 7) (record s { check = chk })
    | false ↦
        let start = s.port.prec_start in
        let r = scan s.special chk (read_mem s.port.prec_buf start (run_length s.port)) in
        let s₁ = record s { special = r.special_last; rec_data = s.rec_data + length r.out } in
        elim r.ended [
          | true ↦ end_of_file got exit r s
          | false ↦ pass got exit r.out s₁ then λ x s₂.
              file_data f got x r.check
                (start_at (start + r.used) (record s₂ { rec_bytes = s₂.rec_bytes + r.used }))
        ]
  ]

  -- `ffprocess_data`.
  pub process_bytes : ℕ → GotData c H → Session c H → Outcome (Session c H) (Bool × ℕ)
  unfolding command_data file_data
  process_bytes rounds got s =
      if not s.file then command_data rounds got false s else file_data rounds got false s.check s

  -- `ffwait`, within a number of rounds.
  pub wait_bytes : ℕ → ℕ → GotData c H → Session c H → Outcome (Session c H) (Unit {0})
  unfolding process_bytes
  wait_bytes zero rounds got s = stuck
  wait_bytes (suc f) rounds got s = process_bytes rounds got s then λ r s₁.
      let (exit, need) = r in
      elim exit [
        | true ↦ done tt s₁
        | false ↦ elim (ltb 0 need) [
          | false ↦ wait_bytes f rounds got s₁
          | true ↦ on_line s₁ (receive_data s₁.port need s₁.timeout true) then λ n s₂.
              elim (n == 0) [ true ↦ failed s₂ | false ↦ wait_bytes f rounds got s₂ ]
        ]
      ]
