-- ===== src/G/Resend.antt =====
-- protg.c: sending a packet again with a new acknowledgement, and what an acknowledgement does.
pub mod Adjust
pub mod Resume
use taylor_uucp.Base.{
  ℕ, zero, suc, ◌≡◌, ap, ◌+◌, ◌-◌, ◌*◌, ◌/◌, ◌%◌, ◌^◌, Bool, true, false, ◌&&◌, Option, none, some,
  Bytes, bit_or, bit_xor, ltb, ◌==◌, if◌then◌else◌,
}
use taylor_uucp.Base.Outcome.{Outcome, done, failed, stuck, ◌then◌}
use taylor_uucp.Prot.{Conn, update}
use taylor_uucp.G.{
  Link, Trans, low_bits, shr, framelen, packlen, control_yyy, next_seq, word16, sub_aaaa,
  header_xor, read_mem, packet_start, transmit,
}

-- The control byte with another acknowledgement.
abbrev pub with_ack : ℕ → ℕ → ℕ
with_ack ctl seq = bit_or (ctl / 2 ^ 3 * 2 ^ 3) seq

-- What `zgadjust_ack` writes into the packet at `z` of a send buffer.
rewrite_ack : ℕ → (ℕ → ℕ) → ℕ → ℕ → ℕ
rewrite_ack seq m z =
    let old = sub_aaaa (word16 (m (z + 3)) (m (z + 2))) in
    let ctl = with_ack (m (z + 4)) seq in
    let check = sub_aaaa (bit_xor (bit_xor old (m (z + 4))) ctl) in
    let lo = low_bits check 8 in
    let hi = shr check 8 in
    update (update (update (update m (z + 4) ctl) (z + 2) lo) (z + 3) hi) (z + 5)
      (header_xor (m (z + 1)) lo hi ctl)

-- `zgadjust_ack` on a send buffer, with `iGrecseq`.
pub adjust_ack : ℕ → (ℕ → ℕ) → ℕ → ℕ
unfolding rewrite_ack
adjust_ack seq m =
    let z = packet_start m in if control_yyy (m (z + 4)) == seq then m else rewrite_ack seq m z

-- The packet of a send buffer: its header and as much data as the header says.
pub packet : (ℕ → ℕ) → Bytes
packet m = let z = packet_start m in read_mem m z (framelen + packlen (m (z + 1)))

module _ {c : Conn} {H : Type 0} where
  -- `zsend = zgadjust_ack (seq)` and the `fsend_data` that follows each such call.
  pub resend : ℕ → Link c H → Outcome (Link c H) (Unit {0})
  unfolding adjust_ack packet
  resend seq s =
      let m = adjust_ack s.rec_seq (s.send_buffers seq) in
      transmit (packet m)
        (record s { send_buffers = λ i. if i == seq then m else s.send_buffers i })

  -- The counting at the start of `fggot_ack`.
  abbrev pub calm : Link c H → Bool
  calm s =
      ltb 0 s.error_level
      && elim s.retransmit_seq [ none ↦ true | some _ ↦ false ]
      && s.sent_packets % s.error_decay == 0

  -- `++cGresent_packets` and a resend.
  unfoldable pub resend_next : ℕ → Link c H → Outcome (Link c H) (Unit {0})
  unfolding resend
  resend_next seq s = resend seq (record s { resent_packets = s.resent_packets + 1 })

  -- The rest of `fggot_ack`, for an acknowledgement of packet `seq` that was sent again.
  continue_resend : ℕ → Link c H → Outcome (Link c H) (Unit {0})
  unfolding resend_next
  continue_resend seq s =
      let next = next_seq seq in
      let next' = next_seq next in
      if next == s.send_seq
      then done tt (record s { retransmit_seq = none })
      else (resend_next next s then λ _ s'.
          if next' == s'.send_seq
          then done tt (record s' { retransmit_seq = none })
          else (resend_next next' s' then λ _ s''.
              done tt (record s'' { retransmit_seq = some next' })))

  -- The state after the first assignments of `fggot_ack`.
  abbrev pub record_ack : Trans c H → ℕ → Link c H → Link c H
  record_ack t ack s = record s {
    error_level = if calm s then s.error_level - 1 else s.error_level;
    expect_bad_order = 0;
    host = if ltb ack s.remote_ack then t.window_acked false s.host else s.host;
    remote_ack = ack;
  }

  -- The test of `iGretransmit_seq`.
  pub go_on : Option ℕ → Link c H → Outcome (Link c H) (Unit {0})
  unfolding continue_resend
  go_on none s = done tt s
  go_on (some seq) s = continue_resend seq s

  -- `fggot_ack`.
  pub got_ack : Trans c H → ℕ → Link c H → Outcome (Link c H) (Unit {0})
  unfolding go_on
  got_ack t ack s = let s' = record_ack t ack s in go_on s'.retransmit_seq s'

  pub got_ack-none :
      (t : Trans c H) (ack : ℕ) (s : Link c H)
      → s.retransmit_seq ≡ none
      → got_ack t ack s ≡ done tt (record_ack t ack s)
  unfolding got_ack go_on
  got_ack-none t ack s e = ap (λ o. go_on o (record_ack t ack s)) e
