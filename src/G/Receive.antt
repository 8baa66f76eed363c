-- ===== src/G/Receive.antt =====
-- protg.c: `fgprocess_data`, which takes the packets out of the receive buffer.
pub mod Parts
pub mod Actions
pub mod Arrive
pub mod Damaged
pub mod Kept
pub mod Deliver
use Parts.{
  Header, Blocks, gather, header_of, bad_header, seek_dle, cinbuf, data_blocks, block_check,
}
use Actions.{
  Next, again, return, advance, refuse_header, refuse_checksum, dup_rr, data_packet, control_packet,
}
use taylor_uucp.Base.{
  ℕ, zero, suc, ◌+◌, ◌-◌, ◌*◌, ◌/◌, ◌%◌, ◌^◌, Bool, true, false, not, ◌&&◌, ◌||◌, Option, none,
  some, Bytes, length, ltb, ◌==◌, ◌!=◌, if◌then◌else◌,
}
use taylor_uucp.Base.Outcome.{Outcome, done, failed, stuck, ◌then◌}
use taylor_uucp.Prot.{Conn, Port, crecbuflen}
use taylor_uucp.G.{
  Link, Trans, framelen, kcontrol, control_tt, control_xxx, control_yyy, control, rr, next_seq,
  packlen, word16, sub_aaaa,
}
use taylor_uucp.G.Resend.{got_ack}

module _ {c : Conn} {H : Type 0} where
  -- The call of `fggot_ack` that a packet may lead to.
  pub acknowledge : Trans c H → Header → Bool → Link c H → Outcome (Link c H) (Unit {0})
  acknowledge t h true s = got_ack t (control_yyy h.control) s
  acknowledge t h false s = done tt s

  -- A data packet, or a control packet and what follows the switch.
  pub dispatch :
      Trans c H
      → Bool
      → Bool
      → Bool
      → Header
      → Blocks
      → Bool
      → Bool
      → Link c H
      → Outcome (Link c H) Next
  unfolding data_packet control_packet
  dispatch t do_acks return_control found h b dup true s =
      data_packet t do_acks return_control found h b s
  dispatch t do_acks return_control found h b dup false s = control_packet dup h s then λ _ s'.
      if return_control then done (return true none found) s' else done (again found) s'

  -- From "We have a packet" on.
  pub accept :
      Trans c H → Bool → Bool → Bool → Header → Blocks → ℕ → Link c H → Outcome (Link c H) Next
  unfolding acknowledge dispatch
  accept t do_acks return_control found h b want s =
      let s₁ = record (advance (want + framelen) s) { packet_control = h.control % 2 ^ 8 } in
      let dup = dup_rr h s₁ in
      let is_data = control_tt h.control != control in
      let acks =
        is_data && control_xxx h.control == next_seq s₁.rec_seq
        || control_xxx h.control == rr && not dup in
      acknowledge t h acks s₁ then λ _ s₂.
      dispatch t do_acks return_control found h b dup is_data s₂

  -- The comparison of the check word.
  pub checked :
      Trans c H → Bool → Bool → Bool → Header → Blocks → ℕ → ℕ → Link c H → Outcome (Link c H) Next
  unfolding refuse_checksum accept
  checked t do_acks return_control found h b want check s =
      if word16 h.check_high h.check_low != check
      then refuse_checksum found h s
      else accept t do_acks return_control found h b want s

  -- A control packet from the test of its type on, and a data packet. The value without an exit
  -- and with a count is the return for want of data.
  control_round : Trans c H → Bool → Bool → Bool → Header → Link c H → Outcome (Link c H) Next
  unfolding refuse_header checked
  control_round t do_acks return_control found h s =
      let b : Blocks = record {
        first = s.port.prec_start + framelen;
        cfirst = 0;
        second = none;
        csecond = 0;
      } in
      if control_tt h.control != control
      then refuse_header found s
      else checked t do_acks return_control found h b 0 (sub_aaaa h.control) s

  pub data_round : Trans c H → Bool → Bool → Bool → Header → Link c H → Outcome (Link c H) Next
  unfolding refuse_header checked
  data_round t do_acks return_control found h s =
      let want = packlen h.k in
      let b = data_blocks s.port want in
      if control_tt h.control == control
      then refuse_header found s
      else if ltb (cinbuf s.port) want
      then done (return false (some (want - cinbuf s.port)) found) s
      else (elim (block_check s.port b h.control) [
        | none ↦ stuck
        | some check ↦ checked t do_acks return_control found h b want check s
      ])

  -- A round on a buffer that starts with the first byte of a packet.
  pub packet_round : Trans c H → Bool → Bool → Bool → Link c H → Outcome (Link c H) Next
  unfolding refuse_header control_round data_round
  packet_round t do_acks return_control found s =
      let ab = gather framelen s.port.prec_buf s.port.prec_start s.port.prec_end in
      let h = header_of ab in
      if ltb (length ab) framelen
      then done (return false (some (framelen - length ab)) found) s
      else if bad_header h
      then refuse_header found s
      else if h.k == kcontrol
      then control_round t do_acks return_control found h s
      else data_round t do_acks return_control found h s

  -- A round of the loop, after the search for the start of a packet.
  pub sought : Trans c H → Bool → Bool → Bool → Link c H → Bool × Port c → Outcome (Link c H) Next
  unfolding packet_round
  sought t do_acks return_control found s (true, p) =
      packet_round t do_acks return_control found (record s { port = p })
  sought t do_acks return_control found s (false, p) = done (again found) (record s { port = p })

  -- A round of the loop.
  pub process_round : Trans c H → Bool → Bool → Bool → Link c H → Outcome (Link c H) Next
  unfolding sought seek_dle
  process_round t do_acks return_control found s =
      sought t do_acks return_control found s (seek_dle s.port)

  -- The loop, within a number of rounds. The value is `*pfexit`, `*pcneed` and `*pffound`.
  process_loop :
      ℕ → Trans c H → Bool → Bool → Bool → Link c H → Outcome (Link c H) (Bool × Option ℕ × Bool)
  unfolding process_round
  process_loop zero t do_acks return_control found s = stuck
  process_loop (suc f) t do_acks return_control found s =
      elim (s.port.prec_start == s.port.prec_end) [
        | true ↦ done (false, some framelen, found) s
        | false ↦ process_round t do_acks return_control found s then λ n s'. elim n [
          | again found' ↦ process_loop f t do_acks return_control found' s'
          | return exit need found' ↦ done (exit, need, found') s'
        ]
      ]

  -- `fgprocess_data`.
  pub process_data :
      ℕ → Trans c H → Bool → Bool → Link c H → Outcome (Link c H) (Bool × Option ℕ × Bool)
  unfolding process_loop
  process_data rounds t do_acks return_control s =
      process_loop rounds t do_acks return_control false s
