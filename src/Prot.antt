-- ===== src/Prot.antt =====
-- prot.c: the buffer `abPrecbuf` of received data that every protocol reads, and the calls that
-- move data between it and the connection (conn.h).
pub mod Char
pub mod Delivers
pub mod Queue
pub mod Room
pub mod Transfer
use taylor_uucp.Base.{
  ℕ, zero, suc, ◌+◌, ◌-◌, ◌%◌, Bool, true, false, Option, none, some, List, [], ◌∷◌, Bytes, length,
  drop, ltb, ◌==◌, if◌then◌else◌,
}
use taylor_uucp.Base.Outcome.{Outcome, done, failed, stuck}

abbrev pub crecbuflen : ℕ
crecbuflen = 16384

-- The table of functions of a connection. `none` is a return of FALSE. `write` takes the bytes to
-- write; `io` takes them and the size of the read buffer, and returns how many it wrote and what
-- it read; `read` takes the size of the buffer, the bytes needed, the timeout and `freport`.
pub record Conn : Type 1 where
  pub Net : Type 0
  pub write : Net → Bytes → Option Net
  pub io : Net → Bytes → ℕ → Option (ℕ × Bytes × Net)
  pub read : Net → ℕ → ℕ → ℕ → Bool → Option (Bytes × Net)

-- Memory is a function of the index.
abbrev pub update : (ℕ → ℕ) → ℕ → ℕ → ℕ → ℕ
update m i v j = if i == j then v else m j

-- What a read into `m + i` leaves in the array.
abbrev pub copy_in : (ℕ → ℕ) → ℕ → Bytes → ℕ → ℕ
copy_in m i [] = m
copy_in m i (b ∷ bs) = copy_in (update m i b) (i + 1) bs

-- `breceive_char`'s value: a character, -1 at a timeout, -2 at an error.
pub data Received : Type 0 where
  char : ℕ → Received
  timed_out : Received
  error : Received

module _ (c : Conn) where
  -- `abPrecbuf`, `iPrecstart`, `iPrecend` and the connection.
  pub record Port : Type 0 where
    pub prec_buf : ℕ → ℕ
    pub prec_start : ℕ
    pub prec_end : ℕ
    pub net : c.Net

module _ {c : Conn} where
  -- The room that a single read may fill.
  unfoldable pub room : Port c → ℕ
  room p =
      if ltb p.prec_end p.prec_start
      then p.prec_start - p.prec_end - 1
      else if p.prec_start == 0
      then crecbuflen - p.prec_end - 1
      else crecbuflen - p.prec_end

  -- Data read at the end of the buffer's contents.
  abbrev pub append_read : Port c → Bytes → c.Net → Port c
  append_read p bs n = record p {
    prec_buf = copy_in p.prec_buf p.prec_end bs;
    prec_end = (p.prec_end + length bs) % crecbuflen;
    net = n;
  }

  -- `fconn_write`, whose result is the caller's.
  pub conn_write : Port c → Bytes → Outcome (Port c) (Unit {0})
  conn_write p z = elim (c.write p.net z) [
    | none ↦ failed p
    | some n ↦ done tt (record p { net = n })
  ]

  -- The loop of `fsend_data`, within a number of rounds. The test `csend > 0` is the empty case.
  unfoldable pub send_loop : ℕ → Port c → Bytes → Outcome (Port c) (Unit {0})
  unfolding conn_write room
  send_loop zero p z = stuck
  send_loop (suc f) p [] = done tt p
  send_loop (suc f) p (b ∷ bs) = elim (room p == 0) [
    | true ↦ conn_write p (b ∷ bs)
    | false ↦ elim (c.io p.net (b ∷ bs) (room p)) [
      | none ↦ failed p
      | some (csent, rec, n) ↦ send_loop f (append_read p rec n) (drop csent (b ∷ bs))
    ]
  ]

  -- `fsend_data`.
  unfoldable pub send_data : Port c → Bytes → Bool → Outcome (Port c) (Unit {0})
  unfolding send_loop
  send_data p z true = send_loop 3 p z
  send_data p z false = conn_write p z

  -- `freceive_data`: the value is `*pcrec`. Without room in the buffer, `ulog (LOG_FATAL)` ends the
  -- program.
  pub receive_data : Port c → ℕ → ℕ → Bool → Outcome (Port c) ℕ
  unfolding room
  receive_data p need timeout report = elim (room p == 0) [
    | true ↦ stuck
    | false ↦
        elim (c.read p.net (room p) (if ltb (room p) need then room p else need) timeout report) [
          | none ↦ failed p
          | some (rec, n) ↦ done (length rec) (append_read p rec n)
        ]
  ]

  take_char : Port c → Received × Port c
  take_char p =
      (char (p.prec_buf p.prec_start), record p { prec_start = (p.prec_start + 1) % crecbuflen })

  -- What `breceive_char` does after the call of `freceive_data`, which finds room, since the buffer
  -- is empty.
  read_char : Port c → Outcome (Port c) ℕ → Received × Port c
  unfolding take_char
  read_char p (done crec q) = if crec == 0 then (timed_out, q) else take_char q
  read_char p (failed q) = (error, q)
  read_char p stuck = (error, p)

  pub receive_char : Port c → ℕ → Bool → Received × Port c
  unfolding take_char receive_data
  receive_char p timeout report =
      if p.prec_start == p.prec_end
      then read_char p (receive_data p 1 timeout report)
      else take_char p
