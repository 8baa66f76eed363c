-- ===== src/G/Receive/Actions.antt =====
-- protg.c: what `fgprocess_data` does with a packet, by the cases of its body.
use taylor_uucp.Base.{
  ℕ, ◌+◌, ◌-◌, ◌%◌, Bool, true, false, ◌&&◌, Option, none, some, ltb, ◌==◌, ◌!=◌, if◌then◌else◌,
}
use taylor_uucp.Base.Outcome.{Outcome, done, failed, stuck, ◌then◌}
use taylor_uucp.Prot.{Conn, crecbuflen}
use taylor_uucp.G.{
  Link, Trans, control_tt, control_xxx, control_yyy, control, shortdata, close, rj, srj, rr,
  next_seq, send_control, send_acks, check_errors,
}
use taylor_uucp.G.Receive.Parts.{Header, Blocks, first_block, second_block, short_count, shorten}
use taylor_uucp.G.Resend.{resend}

-- What a round of the loop asks for: `continue`, or a return of TRUE with `*pfexit` and, where it
-- is set, `*pcneed`. Both carry `*pffound`.
pub data Next : Type 0 where
  again : Bool → Next
  return : Bool → Option ℕ → Bool → Next

abbrev is_none : Option ℕ → Bool
is_none none = true
is_none (some _) = false

module _ {c : Conn} {H : Type 0} where
  -- `iPrecstart` moved on by `n`.
  abbrev pub advance : ℕ → Link c H → Link c H
  advance n s = record s {
    port = record (s.port) { prec_start = (s.port.prec_start + n) % crecbuflen };
  }

  -- A header that is refused: it is counted, and the search goes on behind its first byte.
  unfoldable pub refuse_header : Bool → Link c H → Outcome (Link c H) Next
  refuse_header found s =
      let s' = record s { bad_hdr = s.bad_hdr + 1; error_level = s.error_level + 1 } in
      if check_errors s' then done (again found) (advance 1 s') else failed s'

  -- A packet whose check word is wrong.
  unfoldable pub refuse_checksum : Bool → Header → Link c H → Outcome (Link c H) Next
  refuse_checksum found h s =
      let s₁ = record s { bad_checksum = s.bad_checksum + 1; error_level = s.error_level + 1 } in
      let acked = if s₁.rec_seq == s₁.local_ack then done tt s₁ else send_acks s₁ in
      let rejected : Outcome (Link c H) (Unit {0}) = acked then λ _ s₂.
      if control_xxx h.control == next_seq s₂.rec_seq
      then (send_control rj s₂.rec_seq s₂ then λ _ s₃.
          done tt (record s₃ { expect_bad_order = s₃.expect_bad_order + (s₃.request_winsize - 1) }))
      else done tt s₂ in
      if check_errors s₁
      then ((if control_tt h.control == control then done tt s₁ else rejected) then λ _ s₄.
          done (again found) (advance 1 s₄))
      else failed s₁

  -- The test that an RR is to be taken for an RJ.
  unfoldable pub dup_rr : Header → Link c H → Bool
  dup_rr h s =
      s.remote_rejects == 0
      && control_tt h.control == control
      && control_xxx h.control == rr
      && s.remote_ack == control_yyy h.control
      && next_seq s.remote_ack != s.send_seq
      && is_none s.retransmit_seq

  -- A data packet with another sequence number than the expected one.
  unfoldable pub out_of_order : Bool → Link c H → Outcome (Link c H) Next
  out_of_order found s =
      let s' = record s { bad_order = s.bad_order + 1; error_level = s.error_level + 1 } in
      if ltb 0 s.expect_bad_order
      then done (again found) (record s { expect_bad_order = s.expect_bad_order - 1 })
      else if check_errors s'
      then done (again found) s'
      else failed s'

  -- What follows `fgot_data`.
  abbrev pub delivered : Bool → Bool → Link c H → Outcome (Link c H) Next
  delivered return_control exit s =
      if exit
      then done (return true none true) s
      else if return_control
      then done (return true none true) s
      else done (again true) s

  -- The data of the packet goes to `fgot_data`.
  unfoldable pub deliver : Trans c H → Bool → Blocks → Link c H → Outcome (Link c H) Next
  deliver t return_control b s = elim (second_block s.port b) [
    | none ↦ stuck
    | some z ↦
        t.got_data (first_block s.port b) z (next_seq s.remote_ack == s.send_seq) s
        then delivered return_control
  ]

  unfoldable pub deliver_short : Trans c H → Bool → Blocks → Link c H → Outcome (Link c H) Next
  unfolding deliver
  deliver_short t return_control b s = elim (short_count s.port b) [
    | none ↦ stuck
    | some (short, move) ↦ deliver t return_control (shorten short move b) s
  ]

  -- The counting for a data packet that was expected.
  abbrev pub count_packet : Link c H → Link c H
  count_packet s = record s {
    rec_packets = s.rec_packets + 1;
    error_level =
        if ltb 0 s.error_level && (s.rec_packets + 1) % s.error_decay == 0
        then s.error_level - 1
        else s.error_level;
    expect_bad_order = 0;
    rec_seq = next_seq s.rec_seq;
  }

  unfoldable pub data_packet :
      Trans c H → Bool → Bool → Bool → Header → Blocks → Link c H → Outcome (Link c H) Next
  unfolding deliver_short
  data_packet t do_acks return_control found h b s =
      let s₁ = count_packet s in
      if control_xxx h.control != next_seq s.rec_seq
      then out_of_order found s
      else ((if do_acks then send_acks s₁ else done tt s₁) then λ _ s₂.
          if control_tt h.control == shortdata
          then deliver_short t return_control b s₂
          else deliver t return_control b s₂)

  -- The case RJ, and RR taken for RJ.
  unfoldable pub reject : Bool → Header → Link c H → Outcome (Link c H) (Unit {0})
  reject dup h s =
      let ack = control_yyy h.control in
      let next = next_seq ack in
      let s₁ = record s { remote_ack = ack; retransmit_seq = some next } in
      let s₂ = record s₁ {
        resent_packets = s₁.resent_packets + 1;
        remote_duprrs = if dup then s₁.remote_duprrs + 1 else s₁.remote_duprrs;
        remote_rejects = if dup then s₁.remote_rejects else s₁.remote_rejects + 1;
        error_level = s₁.error_level + 1;
      } in
      if next == s₁.send_seq
      then done tt (record s₁ { retransmit_seq = none })
      else if check_errors s₂
      then resend next s₂
      else failed s₂

  -- The case CLOSE, which returns FALSE whether or not the answer could be sent.
  unfoldable pub closed : Link c H → Outcome (Link c H) (Unit {0})
  closed s =
      let answer = send_control close 0 s in
      if s.log_sighup
      then (elim answer [ done _ s' ↦ failed s' | failed s' ↦ failed s' | stuck ↦ stuck ])
      else failed s

  -- The switch on the control type.
  unfoldable pub control_packet : Bool → Header → Link c H → Outcome (Link c H) (Unit {0})
  unfolding reject closed
  control_packet dup h s =
      let xxx = control_xxx h.control in
      let s' = record s {
        resent_packets = s.resent_packets + 1;
        remote_rejects = s.remote_rejects + 1;
        error_level = s.error_level + 1;
      } in
      if xxx == close
      then closed s
      else if xxx == rr
      then (if dup then reject dup h s else done tt s)
      else if xxx == rj
      then reject dup h s
      else if xxx == srj
      then resend (control_yyy h.control) s'
      else done tt s
