-- ===== src/G.antt =====
-- protg.c: the state of the 'g' protocol, the layout of its packets, and the calls that send
-- control packets and acknowledgements.
pub mod Acks
pub mod Checksum
pub mod Frame
pub mod Memory
pub mod Payload
pub mod Receive
pub mod RoundTrip
pub mod Send
pub mod Start
pub mod Resend
use taylor_uucp.Base.{
  ℕ, zero, suc, ◌+◌, ◌-◌, ◌*◌, ◌/◌, ◌%◌, ◌^◌, Bool, true, false, ◌&&◌, ◌||◌, Option, none, some,
  List, [], ◌∷◌, Bytes, bit_or, bit_xor, ltb, leb, ◌==◌, ◌!=◌, if◌then◌else◌,
}
use taylor_uucp.Base.Outcome.{Outcome, done, failed, stuck, ◌then◌}
use taylor_uucp.Prot.{Conn, Port, update, send_data}

-- A field of `k` low bits, `x & (2^k - 1)`, and `x >> k`.
abbrev pub low_bits : ℕ → ℕ → ℕ
low_bits x k = x % 2 ^ k

abbrev pub shr : ℕ → ℕ → ℕ
shr x k = x / 2 ^ k

abbrev pub dle : ℕ
dle = 16

abbrev pub framelen : ℕ
framelen = 6

abbrev pub kcontrol : ℕ
kcontrol = 9

-- The fields of a control byte.
abbrev pub control_tt : ℕ → ℕ
control_tt b = low_bits (shr b 6) 2

abbrev pub control_xxx : ℕ → ℕ
control_xxx b = low_bits (shr b 3) 3

abbrev pub control_yyy : ℕ → ℕ
control_yyy b = low_bits b 3

-- Packet types.
abbrev pub control : ℕ
control = 0

abbrev pub altchan : ℕ
altchan = 1

abbrev pub data_type : ℕ
data_type = 2

abbrev pub shortdata : ℕ
shortdata = 3

-- Control types.
abbrev pub close : ℕ
close = 1

abbrev pub rj : ℕ
rj = 2

abbrev pub srj : ℕ
srj = 3

abbrev pub rr : ℕ
rr = 4

abbrev pub initc : ℕ
initc = 5

abbrev pub initb : ℕ
initb = 6

abbrev pub inita : ℕ
inita = 7

-- `INEXTSEQ` and `CSEQDIFF`.
abbrev pub next_seq : ℕ → ℕ
next_seq i = low_bits (i + 1) 3

abbrev pub seq_diff : ℕ → ℕ → ℕ
seq_diff a b = low_bits (a + 8 - b) 3

-- `CPACKLEN` of the `k` byte.
abbrev pub packlen : ℕ → ℕ
packlen k = 2 ^ (k + 4)

-- The static variables of protg.c that are used once the link is up, over a connection and the state `H` of the caller (trans.c).
-- `none` stands for the -1 of `iGretransmit_seq`, and for a negative `cGmax_errors`. A send buffer
-- is memory.
pub record Link (c : Conn) (H : Type 0) : Type 0 where
  pub send_seq : ℕ
  pub remote_ack : ℕ
  pub retransmit_seq : Option ℕ
  pub rec_seq : ℕ
  pub local_ack : ℕ
  pub request_winsize : ℕ
  pub remote_winsize : ℕ
  pub remote_segsize : ℕ
  pub remote_packsize : ℕ
  pub packet_control : ℕ
  pub timeout : ℕ
  pub retries : ℕ
  pub garbage_data : ℕ
  pub max_errors : Option ℕ
  pub error_decay : ℕ
  pub short_packets : Bool
  pub sent_packets : ℕ
  pub resent_packets : ℕ
  pub delayed_packets : ℕ
  pub rec_packets : ℕ
  pub bad_hdr : ℕ
  pub bad_checksum : ℕ
  pub bad_order : ℕ
  pub remote_rejects : ℕ
  pub remote_duprrs : ℕ
  pub error_level : ℕ
  pub expect_bad_order : ℕ
  pub send_buffers : ℕ → ℕ → ℕ
  pub log_sighup : Bool
  pub port : Port c
  pub host : H

-- What protg.c calls in trans.c: `fgot_data`, whose value is `*pfexit`, and `uwindow_acked`.
pub record Trans (c : Conn) (H : Type 0) : Type 0 where
  pub got_data : Bytes → Bytes → Bool → Link c H → Outcome (Link c H) Bool
  pub window_acked : Bool → H → H

-- A 16-bit word from its bytes, and the checksum that a header carries.
abbrev pub word16 : ℕ → ℕ → ℕ
word16 hi lo = bit_or (hi * 2 ^ 8) lo

abbrev pub sub_aaaa : ℕ → ℕ
sub_aaaa x = (0xaaaa + 2 ^ 16 - x) % 2 ^ 16

abbrev pub header_xor : ℕ → ℕ → ℕ → ℕ → ℕ
header_xor k lo hi ctl = bit_xor (bit_xor (bit_xor k lo) hi) ctl

-- The six bytes of `fgsend_control`.
unfoldable pub control_frame : ℕ → ℕ → Bytes
control_frame xxx yyy =
    let ctl = bit_or (bit_or (control * 2 ^ 6) (xxx * 2 ^ 3)) yyy in
    let check = sub_aaaa ctl in
    let lo = low_bits check 8 in
    let hi = shr check 8 in dle ∷ kcontrol ∷ lo ∷ hi ∷ ctl ∷ header_xor kcontrol lo hi ctl ∷ []

-- `n` bytes of memory from `i` on.
abbrev pub read_mem : (ℕ → ℕ) → ℕ → ℕ → Bytes
read_mem m i zero = []
read_mem m i (suc n) = m i ∷ read_mem m (i + 1) n

-- The offset at which the packet of a send buffer starts: the first of its first two bytes that
-- is not zero, or else the third.
unfoldable pub packet_start : (ℕ → ℕ) → ℕ
packet_start m = if m 0 == 0 then (if m 1 == 0 then 2 else 1) else 0

module _ {c : Conn} {H : Type 0} where
  -- A call on the port of the link.
  abbrev pub on_port : {A : Type 0} → Link c H → Outcome (Port c) A → Outcome (Link c H) A
  on_port s (done a p) = done a (record s { port = p })
  on_port s (failed p) = failed (record s { port = p })
  on_port s stuck = stuck

  -- `fsend_data (qdaemon->qconn, z, len, TRUE)`.
  unfoldable pub transmit : Bytes → Link c H → Outcome (Link c H) (Unit {0})
  transmit z s = on_port s (send_data s.port z true)

  -- `fgsend_control`.
  unfoldable pub send_control : ℕ → ℕ → Link c H → Outcome (Link c H) (Unit {0})
  unfolding transmit control_frame
  send_control xxx yyy s = transmit (control_frame xxx yyy) s

  -- The loop of `fgsend_acks`, within a number of rounds.
  unfoldable pub acks_loop : ℕ → Link c H → Outcome (Link c H) (Unit {0})
  acks_loop zero s = stuck
  acks_loop (suc f) s = elim (s.local_ack == s.rec_seq) [
    | true ↦ done tt s
    | false ↦
        let ack = next_seq s.local_ack in
        send_control rr ack (record s { local_ack = ack }) then λ _ s'. acks_loop f s'
  ]

  -- `fgsend_acks`.
  unfoldable pub send_acks : Link c H → Outcome (Link c H) (Unit {0})
  unfolding acks_loop
  send_acks s = acks_loop 8 s

  -- `fgcheck_errors`: whether the errors are within bounds.
  pub check_errors : Link c H → Bool
  check_errors s = elim s.max_errors [ none ↦ true | some m ↦ leb s.error_level m ]
