-- ===== src/F/File.antt =====
-- protf.c: the checksum and the acknowledgement at the end of a file (`fffile`, `ffawait_ack`,
-- `ffawait_cksum`, `ffsend_ack`).
pub mod Answer
use taylor_uucp.Base.{
  ℕ, zero, suc, ◌+◌, ◌-◌, ◌*◌, ◌/◌, ◌%◌, ◌^◌, Bool, true, false, not, ◌&&◌, ◌||◌, Option, none,
  some, ◌>>=◌, [], ◌∷◌, ◌++◌, Bytes, get_or, ltb, leb, ◌==◌, ◌!=◌, if◌then◌else◌,
}
use taylor_uucp.Base.Outcome.{Outcome, done, failed, stuck, ◌then◌}
use taylor_uucp.Prot.{Conn, Port, send_data}
use taylor_uucp.F.{Session, on_line, send_cmd}

-- What `psendfn` and `precfn` of a transfer point to: NULL, the function of trans.c's caller, or
-- one of protf.c.
pub data Handler : Type 0 where
  no_handler : Handler
  generic : Handler
  await_ack : Handler
  await_cksum : Handler
  send_ack : Handler

-- `struct stransfer`, as far as protf.c sets it. `info` is whether `pinfo` is an `sfinfo`, which keeps
-- the caller's functions, and `bsend` its character.
pub record Transfer : Type 0 where
  pub sendfn : Handler
  pub recfn : Handler
  pub info : Bool
  pub bsend : ℕ
  pub pos : ℕ
  pub sendfile : Bool
  pub recfile : Bool
  pub cmd : Bool

-- What protf.c calls elsewhere: the queues and functions of trans.c, and the file. `rewind` and
-- `truncate` are `none` where they fail.
pub record Files (c : Conn) (H : Type 0) : Type 0 where
  pub is_open : H → Bool
  pub rewind : H → Option H
  pub truncate : H → Option H
  pub queue_send : Transfer → Session c H → Outcome (Session c H) (Unit {0})
  pub queue_receive : Transfer → Session c H → Outcome (Session c H) (Unit {0})
  pub sent : Transfer → Session c H → Outcome (Session c H) (Unit {0})
  pub received : Transfer → Session c H → Outcome (Session c H) (Unit {0})

-- A digit of `%04x`, and the characters for 16 bits.
pub hex_digit : ℕ → ℕ
hex_digit d = if ltb d 10 then 48 + d else 87 + d

pub hex4 : ℕ → Bytes
unfolding hex_digit
hex4 n =
    hex_digit (n / 2 ^ 12 % 16)
    ∷ hex_digit (n / 2 ^ 8 % 16)
    ∷ hex_digit (n / 2 ^ 4 % 16)
    ∷ hex_digit (n % 16)
    ∷ []

-- The line that ends a file.
pub checksum_line : ℕ → Bytes
unfolding hex4
checksum_line check = 0o176 ∷ 0o176 ∷ (hex4 (check % 2 ^ 16) ++ 13 ∷ [])

-- `isxdigit` with the digit's value.
pub hex_value : ℕ → Option ℕ
hex_value x =
    if leb 48 x && leb x 57
    then some (x - 48)
    else if leb 65 x && leb x 70
    then some (x - 55)
    else if leb 97 x && leb x 102
    then some (x - 87)
    else none

-- The test of the five characters, and `strtol`.
pub read_checksum : Bytes → Option ℕ
unfolding hex_value
read_checksum z = do
  a ← hex_value (get_or z 0 0)
  b ← hex_value (get_or z 1 0)
  c ← hex_value (get_or z 2 0)
  d ← hex_value (get_or z 3 0)
  if get_or z 4 0 != 0 then none else some (((a * 16 + b) * 16 + c) * 16 + d)

-- The caller's functions are put back.
abbrev pub restore : Transfer → Transfer
restore q = record q { sendfn = generic; recfn = generic; info = false }

-- The caller's functions are kept, and `h` is called with the next command.
abbrev pub await : Handler → Transfer → Transfer
await h q = record q { sendfn = no_handler; recfn = h; info = true; cmd = true }

module _ {c : Conn} {H : Type 0} where
  -- `fffile`. The value is `*pfhandled`, and the transfer.
  pub file_event :
      Files c H → Bool → Bool → Transfer → Session c H → Outcome (Session c H) (Bool × Transfer)
  unfolding checksum_line
  file_event w start send q s =
      let s₀ = record s {
        check = 0xffff;
        retries = 0;
        acked = false;
        special = if send then s.special else 0;
        file = if send then s.file else true;
      } in
      if start
      then done (false, q) s₀
      else if s.acked
      then done (false, q) (record s { acked = false })
      else if send
      then (on_line s (send_data s.port (checksum_line s.check) true) then λ _ s₁.
          let q' = await await_ack q in
          w.queue_receive q' (record s₁ { file = false }) then λ _ s₂. done (true, q') s₂)
      else (let q' = await await_cksum q in
          w.queue_receive q' (record s { file = false }) then λ _ s₁. done (true, q') s₁)

  -- What `ffawait_ack` does for an R.
  pub resend_file : Files c H → Transfer → Session c H → Outcome (Session c H) Transfer
  resend_file w q s =
      let s₁ = record s { retries = s.retries + 1 } in
      let q' = record (restore q) { pos = 0; sendfile = true } in
      if not (w.is_open s.host)
      then failed s
      else if ltb s₁.max_retries s₁.retries
      then failed s₁
      else (elim (w.rewind s₁.host) [
        | none ↦ failed s₁
        | some h ↦
            w.queue_send q'
              (record s₁ { host = h; check = 0xffff; send_retries = s₁.send_retries + 1 })
            then λ _ s₂. done q' s₂
      ])

  -- `ffawait_ack`.
  pub got_answer : Files c H → Bytes → Transfer → Session c H → Outcome (Session c H) Transfer
  unfolding resend_file
  got_answer w z q s =
      if get_or z 0 0 == 82
      then resend_file w q s
      else if get_or z 0 0 != 71
      then failed s
      else (w.sent (restore q) (record s { acked = true }) then λ _ s'. done (restore q) s')

  -- What `ffawait_cksum` does with another checksum than expected: it asks for the file again, or
  -- gives up after too many retries.
  pub ask_again : Files c H → Transfer → Session c H → Outcome (Session c H) Transfer
  ask_again w q s =
      let s₁ = record s { retries = s.retries + 1 } in
      if not (w.is_open s.host)
      then failed s
      else if ltb s₁.max_retries s₁.retries
      then done (record q { bsend = 81 }) s₁
      else (elim (w.truncate s₁.host) [
        | none ↦ failed s₁
        | some h ↦
            done (record q { bsend = 82; pos = 0 })
              (record s₁ {
                host = h;
                check = 0xffff;
                special = 0;
                file = true;
                rec_retries = s₁.rec_retries + 1;
              })
      ])

  -- `ffawait_cksum`.
  pub got_checksum : Files c H → Bytes → Transfer → Session c H → Outcome (Session c H) Transfer
  unfolding ask_again read_checksum
  got_checksum w z q s = elim (read_checksum z) [
    | none ↦ failed s
    | some check ↦
        (if check != s.check % 2 ^ 16 then ask_again w q s else done (record q { bsend = 71 }) s)
        then λ q₁ s₁.
            let q₂ = record q₁ { sendfn = send_ack; recfn = no_handler } in
            w.queue_send q₂ s₁ then λ _ s₂. done q₂ s₂
  ]

  -- `ffsend_ack`.
  pub answer : Files c H → Transfer → Session c H → Outcome (Session c H) Transfer
  unfolding send_cmd
  answer w q s = send_cmd (q.bsend ∷ []) s then λ _ s₁.
      let q₁ = restore q in
      let q₂ = record q₁ { recfile = true } in
      if q.bsend == 81
      then failed s₁
      else if q.bsend == 82
      then (w.queue_receive q₂ s₁ then λ _ s₂. done q₂ s₂)
      else (w.received q₁ (record s₁ { acked = true }) then λ _ s₂. done q₁ s₂)
