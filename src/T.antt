-- ===== src/T.antt =====
-- prott.c: the 't' protocol, for a connection without errors.
pub mod Agree
pub mod Blocks
pub mod Ends
pub mod Refine
pub mod RoundTrip
use taylor_uucp.Base.{
  ℕ, zero, suc, ◌+◌, ◌-◌, ◌*◌, ◌/◌, ◌%◌, ◌^◌, Bool, true, false, not, Option, none, some, [], ◌∷◌,
  ◌++◌, Bytes, length, replicate, ltb, leb, ◌==◌, if◌then◌else◌,
}
use taylor_uucp.Base.Outcome.{Outcome, done, failed, stuck, ◌then◌}
use taylor_uucp.Prot.{Conn, Port, crecbuflen, update, copy_in, send_data, receive_data}
use taylor_uucp.Prot.Queue.{first_count, taken}
use taylor_uucp.Prot.Room.{used}
use taylor_uucp.G.{read_mem}

abbrev pub ctbufsize : ℕ
ctbufsize = 1024

abbrev pub ctframelen : ℕ
ctframelen = 4

abbrev pub ctpacksize : ℕ
ctpacksize = 512

-- `zTbuf`, `fTfile`, `cTtimeout`, the connection, and the state `H` of the caller (trans.c).
pub record Session (c : Conn) (H : Type 0) : Type 0 where
  pub buf : Option (ℕ → ℕ)
  pub file : Bool
  pub timeout : ℕ
  pub port : Port c
  pub host : H

-- The length in network order, from its four bytes.
abbrev pub long_of : ℕ → ℕ → ℕ → ℕ → ℕ
long_of b₀ b₁ b₂ b₃ = ((b₀ % 256 * 256 + b₁ % 256) * 256 + b₂ % 256) * 256 + b₃ % 256

-- The bytes that `ftsendcmd` sends: a multiple of the packet size, with a zero at least.
abbrev pub padded : Bytes → Bytes
padded z = z ++ replicate ((length z / ctpacksize + 1) * ctpacksize - length z) 0

-- The buffer with the length of the data at offset 4 put in front of it, and the bytes that
-- `ftsenddata` sends of it.
abbrev pub put_length : (ℕ → ℕ) → ℕ → ℕ → ℕ
put_length m cdata = update (update m 2 (cdata / 2 ^ 8 % 256)) 3 (cdata % 256)

abbrev pub frame : (ℕ → ℕ) → ℕ → Bytes
frame m cdata = read_mem (put_length m cdata) 0 (cdata + ctframelen)

-- `fgot_data`, given the bytes of its two blocks. The value is whether it sets `*pfexit`.
abbrev pub GotData : Conn → Type 0 → Type 0
GotData c H = Bytes → Bytes → Session c H → Outcome (Session c H) Bool

-- The length at the front of the buffer.
abbrev pub block_length : {c : Conn} → Port c → ℕ
block_length p =
    let b = λ (i : ℕ). p.prec_buf ((p.prec_start + i) % crecbuflen) in
    long_of (p.prec_buf p.prec_start) (b 1) (b 2) (b 3)

module _ {c : Conn} {H : Type 0} where
  abbrev pub on_line : {A : Type 0} → Session c H → Outcome (Port c) A → Outcome (Session c H) A
  on_line s (done a p) = done a (record s { port = p })
  on_line s (failed p) = failed (record s { port = p })
  on_line s stuck = stuck

  -- `ftstart`, with the answer of `fconn_set` and the memory that `xmalloc` returns.
  pub start : Bool → (ℕ → ℕ) → Session c H → Outcome (Session c H) (Unit {0})
  start set m s =
      if not set
      then failed s
      else done tt (record s { buf = some (update (update m 0 0) 1 0); file = false })

  -- `ftshutdown`.
  pub shutdown : Session c H → Outcome (Session c H) (Unit {0})
  shutdown s = done tt (record s { buf = none; timeout = 120 })

  -- `ftsendcmd`.
  pub send_cmd : Bytes → Session c H → Outcome (Session c H) (Unit {0})
  send_cmd z s = on_line s (send_data s.port (padded z) true)

  -- `ftsenddata`, for `cdata` bytes that are at offset 4 of the buffer. A NULL buffer is a fault.
  pub send_file_data : ℕ → Session c H → Outcome (Session c H) (Unit {0})
  send_file_data cdata s = elim s.buf [
    | none ↦ stuck
    | some m ↦
        let s' = record s { buf = some (put_length m cdata) } in
        on_line s' (send_data s'.port (frame m cdata) false)
  ]

  -- The call of `fgot_data` with `n` bytes at the front of the buffer, which are then taken out.
  pub pass : GotData c H → ℕ → Session c H → Outcome (Session c H) Bool
  pass got n s =
      let i = s.port.prec_start in
      let k = first_count i n in
      got (read_mem s.port.prec_buf i k) (read_mem s.port.prec_buf 0 (n - k)) s then λ x s'.
      done x (record s' { port = taken s'.port n })

  -- The loop over commands, with `cinbuf`. The value is `*pfexit` and `*pcneed`.
  pub command_loop : ℕ → GotData c H → ℕ → Session c H → Outcome (Session c H) (Bool × ℕ)
  unfolding pass
  command_loop zero got cinbuf s = stuck
  command_loop (suc f) got cinbuf s = elim (leb ctpacksize cinbuf) [
    | false ↦ done (false, ctpacksize - cinbuf) s
    | true ↦ pass got ctpacksize s then λ x s'. elim x [
      | true ↦ done (true, 0) s'
      | false ↦ command_loop f got (cinbuf - ctpacksize) s'
    ]
  ]

  -- The loop over file data. A length that does not fit an `int`, or not with
  -- the four bytes of the header, is a fault: as a count it is negative.
  pub file_loop : ℕ → GotData c H → ℕ → Session c H → Outcome (Session c H) (Bool × ℕ)
  unfolding pass
  file_loop zero got cinbuf s = stuck
  file_loop (suc f) got cinbuf s = elim (leb ctframelen cinbuf) [
    | false ↦ done (false, ctframelen - cinbuf) s
    | true ↦
        let n = block_length s.port in
        elim (leb (2 ^ 31 - ctframelen) n) [
          | true ↦ stuck
          | false ↦ elim (ltb cinbuf (n + ctframelen)) [
            | true ↦ done (false, n + ctframelen - cinbuf) s
            | false ↦ pass got n (record s { port = taken s.port ctframelen }) then λ x s'. elim x [
              | true ↦ done (true, 0) s'
              | false ↦ file_loop f got (cinbuf - (n + ctframelen)) s'
            ]
          ]
        ]
  ]

  -- `ftprocess_data`. Each round takes a byte at least.
  pub process_data : GotData c H → Session c H → Outcome (Session c H) (Bool × ℕ)
  unfolding command_loop file_loop
  process_data got s =
      let cinbuf = used s.port in
      if not s.file
      then command_loop (cinbuf + 1) got cinbuf s
      else file_loop (cinbuf + 1) got cinbuf s

  -- `ftwait`, within a number of rounds.
  pub wait : ℕ → GotData c H → Session c H → Outcome (Session c H) (Unit {0})
  unfolding process_data
  wait zero got s = stuck
  wait (suc f) got s = process_data got s then λ (exit, need) s₁. elim exit [
    | true ↦ done tt s₁
    | false ↦ on_line s₁ (receive_data s₁.port need s₁.timeout true) then λ n s₂. elim (n == 0) [
      | true ↦ failed s₂
      | false ↦ wait f got s₂
    ]
  ]

  -- `ftfile`, with `fstart` and `fsend`.
  pub file_event : Bool → Bool → Session c H → Session c H
  file_event start_file send s = if not send then record s { file = start_file } else s
