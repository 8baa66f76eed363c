-- ===== src/F.antt =====
-- protf.c: the static variables of the 'f' protocol, and the bytes that it sends.
pub mod Append
pub mod Bounds
pub mod Decode
pub mod File
pub mod RoundTrip
use taylor_uucp.Base.{
  ℕ, zero, suc, ◌+◌, ◌-◌, ◌*◌, ◌/◌, ◌%◌, ◌^◌, Bool, true, false, [], ◌∷◌, ◌++◌, Bytes, length, leb,
  ◌==◌, if◌then◌else◌,
}
use taylor_uucp.Base.Outcome.{Outcome, done, failed, stuck}
use taylor_uucp.Prot.{Conn, Port, send_data}

-- The static variables, the connection, and the state `H` of the caller (trans.c).
pub record Session (c : Conn) (H : Type 0) : Type 0 where
  pub timeout : ℕ
  pub max_retries : ℕ
  pub file : Bool
  pub check : ℕ
  pub special : ℕ
  pub retries : ℕ
  pub acked : Bool
  pub sent_data : ℕ
  pub sent_bytes : ℕ
  pub rec_data : ℕ
  pub rec_bytes : ℕ
  pub send_retries : ℕ
  pub rec_retries : ℕ
  pub port : Port c
  pub host : H

-- The checksum turned left, in 32 bits, and a number added to it.
pub rotate_left : ℕ → ℕ
rotate_left chk =
    if chk / 2 ^ 15 % 2 == 0 then chk * 2 % 2 ^ 32 else (chk * 2 % 2 ^ 32 + 1) % 2 ^ 32

pub add_check : ℕ → ℕ → ℕ
unfolding rotate_left
add_check chk b = (rotate_left chk + b) % 2 ^ 32

-- A byte in printable characters.
unfoldable pub encode_byte : ℕ → Bytes
encode_byte b =
    if leb b 0o177
    then (if leb b 0o37
        then 0o172 ∷ (b + 0o100) ∷ []
        else if leb b 0o171
        then b ∷ []
        else 0o173 ∷ (b - 0o100) ∷ [])
    else (if leb b 0o237
        then 0o174 ∷ (b - 0o100) ∷ []
        else if leb b 0o371
        then 0o175 ∷ (b - 0o200) ∷ []
        else 0o176 ∷ (b - 0o300) ∷ [])

-- The loop of `ffsenddata`: the bytes in `ab`, and the checksum behind it.
unfoldable pub encode : Bytes → Bytes
unfolding encode_byte
encode [] = []
encode (b ∷ z) = encode_byte b ++ encode z

unfoldable pub sum_check : ℕ → Bytes → ℕ
unfolding add_check
sum_check chk [] = chk
sum_check chk (b ∷ z) = sum_check (add_check chk b) z

module _ {c : Conn} {H : Type 0} where
  -- A call on the port of the session.
  abbrev pub on_line : {A : Type 0} → Session c H → Outcome (Port c) A → Outcome (Session c H) A
  on_line s (done a p) = done a (record s { port = p })
  on_line s (failed p) = failed (record s { port = p })
  on_line s stuck = stuck

  -- `ffsendcmd`.
  pub send_cmd : Bytes → Session c H → Outcome (Session c H) (Unit {0})
  send_cmd z s = on_line s (send_data s.port (z ++ 13 ∷ []) true)

  -- `ffsenddata`.
  pub send_file_data : Bytes → Session c H → Outcome (Session c H) (Unit {0})
  unfolding encode sum_check
  send_file_data z s =
      let s' = record s {
        sent_data = s.sent_data + length z;
        check = sum_check s.check z;
        sent_bytes = s.sent_bytes + length (encode z);
      } in
      on_line s' (send_data s'.port (encode z) false)
