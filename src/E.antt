-- ===== src/E.antt =====
-- prote.c: the 'e' protocol, which sends the size of a file and then all of its bytes.
pub mod Number
pub mod File
pub mod RoundTrip
pub mod Wait
use taylor_uucp.Base.{
  ℕ, zero, suc, ◌+◌, ◌-◌, ◌*◌, ◌/◌, ◌%◌, ◌^◌, min, Bool, true, false, not, ◌||◌, Option, none, some,
  [], ◌∷◌, ◌++◌, Bytes, length, replicate, take, ltb, leb, ◌==◌, if◌then◌else◌,
}
use taylor_uucp.Base.Outcome.{Outcome, done, failed, stuck, ◌then◌}
use taylor_uucp.Command.Number.{ℤ, pos, negsuc, minus_one, to_int}
use taylor_uucp.Prot.{Conn, Port, crecbuflen, send_data, receive_data}
use taylor_uucp.Prot.Queue.{first_count, taken}
use taylor_uucp.Prot.Room.{used}
use taylor_uucp.G.{read_mem}
use Number.{decimal, strtol_decimal, minus_nat}

abbrev pub cebufsize : ℕ
cebufsize = crecbuflen / 2

abbrev pub ceframelen : ℕ
ceframelen = 20

-- `zEbuf`, `fEfile`, `cEbytes`, `cEtimeout`, the connection, and the state `H` of the caller.
pub record Session (c : Conn) (H : Type 0) : Type 0 where
  pub buf : Option (ℕ → ℕ)
  pub file : Bool
  pub bytes : ℤ
  pub timeout : ℕ
  pub port : Port c
  pub host : H

-- `fgot_data`, given the bytes of its two blocks. The value is whether it sets `*pfexit`.
abbrev pub GotData : Conn → Type 0 → Type 0
GotData c H = Bytes → Bytes → Session c H → Outcome (Session c H) Bool

-- The bytes that announce a file of `cbytes` bytes.
abbrev pub announce : ℤ → Bytes
announce cbytes = let z = decimal cbytes in z ++ replicate (ceframelen - length z) 0

-- Up to and with the null byte, as `memchr` finds it, or all of the bytes.
pub to_null : Bytes → ℕ
to_null [] = 0
to_null (b ∷ z) = let rest = to_null z in if b == 0 then 1 else suc rest

abbrev pub size_of : ℤ → ℕ
size_of (pos n) = n
size_of (negsuc n) = 2 ^ 64 - 1 - n

-- `*pcneed` at the end of the data that is there.
abbrev pub file_need : ℤ → ℕ
file_need (pos n) = if ltb cebufsize n then cebufsize else n
file_need (negsuc n) = size_of (to_int (negsuc n))

abbrev pub is_zero : ℤ → Bool
is_zero (pos n) = n == 0
is_zero (negsuc n) = false

abbrev pub is_unknown : ℤ → Bool
is_unknown (pos n) = false
is_unknown (negsuc n) = n == 0

-- The size of the file, from the front of the buffer.
abbrev pub header_bytes : {c : Conn} → Port c → Bytes
header_bytes p =
    let i = p.prec_start in
    let k = first_count i ceframelen in
    read_mem p.prec_buf i k ++ read_mem p.prec_buf 0 (ceframelen - k)

module _ {c : Conn} {H : Type 0} where
  abbrev pub on_line : {A : Type 0} → Session c H → Outcome (Port c) A → Outcome (Session c H) A
  on_line s (done a p) = done a (record s { port = p })
  on_line s (failed p) = failed (record s { port = p })
  on_line s stuck = stuck

  -- `festart`, with the answer of `fconn_set` and the memory that `xmalloc` returns.
  pub start : Bool → (ℕ → ℕ) → Session c H → Outcome (Session c H) (Unit {0})
  start set m s = if not set then failed s else done tt (record s { buf = some m; file = false })

  -- `feshutdown`.
  pub shutdown : Session c H → Outcome (Session c H) (Unit {0})
  shutdown s = done tt (record s { buf = none; timeout = 120 })

  -- `fesendcmd`.
  pub send_cmd : Bytes → Session c H → Outcome (Session c H) (Unit {0})
  send_cmd z s = on_line s (send_data s.port (z ++ 0 ∷ []) true)

  -- `fesenddata`, with the test of the number of bytes.
  pub send_file_data : Bytes → Session c H → Outcome (Session c H) (Unit {0})
  unfolding minus_nat
  send_file_data z s =
      let s' = record s { bytes = minus_nat s.bytes (length z) } in
      elim s'.bytes [ negsuc n ↦ failed s' | pos n ↦ on_line s' (send_data s'.port z false) ]

  -- The call of `fgot_data` with the bytes up to a null byte, or all up to the end of the array.
  pub pass_command : GotData c H → Session c H → Outcome (Session c H) Bool
  unfolding to_null
  pass_command got s =
      let i = s.port.prec_start in
      let k = to_null (read_mem s.port.prec_buf i (first_count i (used s.port))) in
      got (read_mem s.port.prec_buf i k) [] s then λ x s'.
      done x (record s' { port = taken s'.port k })

  -- The loop over commands. The value is `*pfexit` and `*pcneed`.
  unfoldable pub command_loop : ℕ → GotData c H → Session c H → Outcome (Session c H) (Bool × ℕ)
  command_loop zero got s = stuck
  command_loop (suc f) got s = elim (used s.port == 0) [
    | true ↦ done (false, 1) s
    | false ↦ pass_command got s then λ x s'. elim x [
      | true ↦ done (true, 0) s'
      | false ↦ command_loop f got s'
    ]
  ]

  -- The call of `fgot_data` without bytes once the file is complete. `x` is `*pfexit`.
  pub at_end :
      GotData c H
      → (Bool → Session c H → Outcome (Session c H) (Bool × ℕ))
      → Bool
      → Session c H
      → Outcome (Session c H) (Bool × ℕ)
  at_end got loop x s =
      if is_zero s.bytes
      then (got [] [] s then λ x' s'. if x || x' then done (true, 0) s' else loop false s')
      else loop x s

  -- The call of `fgot_data` with `n` bytes of the file, which are then taken out.
  pub pass_data : GotData c H → ℕ → Session c H → Outcome (Session c H) Bool
  unfolding minus_nat
  pass_data got n s =
      let i = s.port.prec_start in
      let k = first_count i n in
      got (read_mem s.port.prec_buf i k) (read_mem s.port.prec_buf 0 (n - k)) s then λ x s'.
      done x (record s' { port = taken s'.port n; bytes = minus_nat s'.bytes n })

  -- The loop over file data. A negative number of bytes is a fault.
  unfoldable pub file_loop :
      ℕ → GotData c H → ℕ → Bool → Session c H → Outcome (Session c H) (Bool × ℕ)
  file_loop zero got cinbuf x s = stuck
  file_loop (suc f) got cinbuf x s = elim (cinbuf == 0) [
    | true ↦ done (x, file_need s.bytes) s
    | false ↦ elim s.bytes [
      | negsuc n ↦ stuck
      | pos n ↦
          let clen = if ltb n cinbuf then n else cinbuf in
          pass_data got clen s then λ x' s'.
          at_end got (file_loop f got (cinbuf - clen)) (x || x') s'
    ]
  ]

  -- The loop over the file data that is there, `cinbuf` bytes. Each round takes a byte at least, unless
  -- the file is complete and `fgot_data` goes on.
  pub file_rounds : GotData c H → ℕ → Bool → Session c H → Outcome (Session c H) (Bool × ℕ)
  unfolding file_loop
  file_rounds got cinbuf x s = file_loop (cinbuf + 1) got cinbuf x s

  -- The part of `feprocess_data` for a file.
  pub process_file : GotData c H → Session c H → Outcome (Session c H) (Bool × ℕ)
  unfolding file_rounds at_end strtol_decimal
  process_file got s =
      if is_unknown s.bytes
      then (if ltb (used s.port) ceframelen
          then done (false, ceframelen - used s.port) s
          else let s' = record s {
            bytes = strtol_decimal (header_bytes s.port);
            port = taken s.port ceframelen;
          } in
            at_end got (file_rounds got (used s'.port)) false s')
      else file_rounds got (used s.port) false s

  -- `feprocess_data`.
  pub process_data : GotData c H → Session c H → Outcome (Session c H) (Bool × ℕ)
  unfolding command_loop process_file
  process_data got s =
      if not s.file then command_loop (used s.port + 1) got s else process_file got s

  -- `fewait`, within a number of rounds.
  pub wait : ℕ → GotData c H → Session c H → Outcome (Session c H) (Unit {0})
  unfolding process_data
  wait zero got s = stuck
  wait (suc f) got s = process_data got s then λ (exit, need) s₁. elim exit [
    | true ↦ done tt s₁
    | false ↦ on_line s₁ (receive_data s₁.port need s₁.timeout true) then λ n s₂. elim (n == 0) [
      | true ↦ failed s₂
      | false ↦ wait f got s₂
    ]
  ]

  -- `fefile`, with `fstart`, `fsend` and `cbytes`. A number of 20 characters does not fit the array.
  pub file_event : Bool → Bool → ℤ → Session c H → Outcome (Session c H) (Unit {0})
  unfolding decimal
  file_event true true cbytes s =
      if ltb (length (decimal cbytes)) ceframelen
      then (on_line s (send_data s.port (announce cbytes) true) then λ x s'.
          done x (record s' { bytes = cbytes }))
      else stuck
  file_event true false cbytes s = done tt (record s { bytes = minus_one; file = true })
  file_event false send cbytes s =
      let s' = if not send then record s { file = false } else s in
      if is_zero s'.bytes then done tt s' else failed s'
