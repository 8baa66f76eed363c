-- ===== src/G/Receive/Deliver.antt =====
-- A whole data packet in the receive buffer is accepted and handed on (protg.c, `fgprocess_data`).
use taylor_uucp.Base.{
  ℕ, ◌+◌, ◌-◌, ◌%◌, ◌^◌, ◌≤◌, ◌<◌, ◌≡◌, ◌≢◌, inl, inr, refl, sym, ap, ap₂, ◌∙◌, Bool, true, false,
  none, ◌++◌, append_assoc, Bytes, length, replicate, take, drop, take-append, drop-append, ◌==◌,
  ◌!=◌, if◌then◌else◌, Bool-cases, arith,
}
use taylor_uucp.Base.Outcome.{Outcome, done, ◌then◌}
use taylor_uucp.G.{rr}
use taylor_uucp.Base.{not, ◌&&◌, ◌||◌}
use taylor_uucp.Prot.{Conn, crecbuflen}
use taylor_uucp.Prot.Room.{used}
use taylor_uucp.Prot.Transfer.{Documented}
use taylor_uucp.G.{
  Link, Trans, framelen, packlen, control, shortdata, control_tt, control_xxx, control_yyy,
  next_seq, send_acks,
}
use taylor_uucp.G.Checksum.{checksum}
use taylor_uucp.G.Frame.{data_header}
use taylor_uucp.G.Resend.{got_ack-none, record_ack}
use taylor_uucp.G.Payload.{unused, segment, segment_type, packlen-bounds}
use taylor_uucp.G.Receive.{accept, acknowledge, dispatch, process_round}
use taylor_uucp.G.Receive.Parts.{Header, Blocks, header_of, data_blocks, first_block, shorten}
use taylor_uucp.G.Receive.Parts.Ring.{Behind}
use taylor_uucp.G.Receive.Parts.Shorten.{block_bytes, SecondOk, shorten_bytes, shorten-SecondOk}
use taylor_uucp.G.Receive.Parts.Short.{short_count-segment}
use taylor_uucp.G.Receive.Parts.Data.{Split, blocks-segment, block_bytes-Split}
use taylor_uucp.G.Receive.Actions.{
  Next, data_packet, deliver, deliver_short, delivered, count_packet, advance, dup_rr,
}
use taylor_uucp.G.Receive.Kept.{block_bytes-Kept, send_acks-Kept}
use taylor_uucp.G.Receive.Arrive.{Arrived, packet_fits, process_round-Arrived}

length-unused : {u : ℕ} → 0 < u → length (unused u) ≤ u
length-unused h = ground arith

-- The data of a segment that it does not fill.
segment-read :
    (size : ℕ) (z : Bytes)
    → length z < size
    → take (length z) (drop (length (unused (size - length z))) (segment size z)) ≡ z
segment-read size z h =
    let u = size - length z in
    let t : (length z == size) ≡ false = ground arith in
    let fill = replicate (u - length (unused u)) 0 in
    rw t (
      ap (take (length z)) (ap (drop (length (unused u))) (append_assoc (unused u) z fill))
      ∙ ap (take (length z)) (drop-append (unused u) (z ++ fill) (length (unused u)) refl)
      ∙ take-append z fill (length z) refl)

module _ {c : Conn} {H : Type 0} where
  -- `out` is what follows after `z` has been handed on in two pieces.
  pub record Delivers (t : Trans c H) (return_control : Bool) (s : Link c H)
      (out : Outcome (Link c H) Next) (z : Bytes) : Type 0 where
    pub first : Bytes
    pub second : Bytes
    pub whole : first ++ second ≡ z
    pub handed : out ≡ (
        t.got_data first second (next_seq s.remote_ack == s.send_seq) s
        then delivered return_control)

  deliver-Split :
      (t : Trans c H) (return_control : Bool) (s : Link c H) (b : Blocks) (z : Bytes)
      → Split s.port b z
      → Delivers t return_control s (deliver t return_control b s) z
  unfolding deliver
  deliver-Split t return_control s b z x = record {
    first = first_block s.port b;
    second = x.second;
    whole = x.whole;
    handed = rw (deliver, x.defined);
  }

  deliver_short-segment :
      (t : Trans c H) (return_control : Bool) (s : Link c H) (b : Blocks) (size : ℕ) (z : Bytes)
      → 0 < b.cfirst
      → SecondOk b
      → b.cfirst + b.csecond ≡ size
      → block_bytes s.port.prec_buf b ≡ segment size z
      → length z < size
      → Delivers t return_control s (deliver_short t return_control b s) z
  unfolding deliver_short
  deliver_short-segment t return_control s b size z pos ok total e h =
      let u = size - length z in
      let move = length (unused u) in
      rw (deliver_short, short_count-segment s.port b size z pos ok e h)
        (deliver-Split t return_control s (shorten u move b) z (
          block_bytes-Split s.port (shorten u move b) z
            (shorten-SecondOk u move b (length-unused (omega arith)) ok)
            (shorten_bytes s.port.prec_buf u move (length z) b (length-unused (omega arith))
                (omega arith)
              ∙ ap (λ w. take (length z) (drop move w)) e
              ∙ segment-read size z h)))

  pub data_packet-segment :
      (t : Trans c H) (do_acks return_control found : Bool) (s s₂ : Link c H) (h : Header)
      (b : Blocks) (size : ℕ) (z : Bytes)
      → (if do_acks then send_acks (count_packet s) else done tt (count_packet s)) ≡ done tt s₂
      → control_xxx h.control ≡ next_seq s.rec_seq
      → control_tt h.control ≡ segment_type size z
      → 0 < b.cfirst
      → SecondOk b
      → b.cfirst + b.csecond ≡ size
      → block_bytes s₂.port.prec_buf b ≡ segment size z
      → length z ≤ size
      → Delivers t return_control s₂ (data_packet t do_acks return_control found h b s) z
  unfolding data_packet
  data_packet-segment t do_acks return_control found s s₂ h b size z acks seq ty pos ok total e le =
      let x : (control_xxx h.control != next_seq s.rec_seq) ≡ false = rw seq (ground arith) in
      elim (Bool-cases (length z == size)) [
        | inl f ↦
            let q : (control_tt h.control == shortdata) ≡ false = rw (ty, f) in
            rw (data_packet, x, acks, q)
              (deliver-Split t return_control s₂ b z (block_bytes-Split s₂.port b z ok (e ∙ rw f)))
        | inr f ↦
            let q : (control_tt h.control == shortdata) ≡ true = rw (ty, f) in
            rw (data_packet, x, acks, q)
              (deliver_short-segment t return_control s₂ b size z pos ok total e (ground arith))
      ]

  -- Behind the acknowledgement and the header.
  abbrev pub accepted : Trans c H → ℕ → ℕ → Link c H → Link c H
  accepted t k ctl s =
      record_ack t (control_yyy ctl)
        (record (advance (packlen k + framelen) s) { packet_control = ctl % 2 ^ 8 })

  accept-expected :
      (t : Trans c H) (do_acks return_control found : Bool) (h : Header) (b : Blocks) (k : ℕ)
      (s : Link c H)
      → control_tt h.control ≢ control
      → control_xxx h.control ≡ next_seq s.rec_seq
      → s.retransmit_seq ≡ none
      → accept t do_acks return_control found h b (packlen k) s
        ≡ data_packet t do_acks return_control found h b (accepted t k h.control s)
  unfolding accept acknowledge dispatch
  accept-expected t do_acks return_control found h b k s nc seq none_left =
      let s₁ = record (advance (packlen k + framelen) s) { packet_control = h.control % 2 ^ 8 } in
      let dup = dup_rr h s₁ in
      let d : (control_tt h.control != control) ≡ true = ground arith in
      let x : (control_xxx h.control == next_seq s.rec_seq) ≡ true = ground (arith, seq) in
      let both : (control_tt h.control != control) && (control_xxx h.control == next_seq s.rec_seq)
          ≡ true =
        rw (d, x) in
      ap₂
        (λ is_data acks.
          acknowledge t h (acks || control_xxx h.control == rr && not dup) s₁ then λ _ s₂.
          dispatch t do_acks return_control found h b dup is_data s₂)
        d both
      ∙ ap (λ o. o then λ _ s₂. data_packet t do_acks return_control found h b s₂)
          (got_ack-none t (control_yyy h.control) s₁ none_left)

  -- Over a connection that does what conn.h says: the receive buffer's indices are in range and
  -- its contents start with a data packet (the six header bytes for a size index k from 1 to 8
  -- and a control byte of type DATA or SHORTDATA, then the segment of that size that carries the
  -- bytes `z`), the control byte has the expected sequence number, no retransmission is under
  -- way, and the last acknowledgement sent is below 8. If the acknowledgements for it, where
  -- `fdoacks` asks for them, are sent, and what they have read leaves as many bytes of the array
  -- free as the segment takes, then one round of `fgprocess_data` calls `fgot_data` once, with
  -- `z` in two pieces, whether or not the packet goes round the end of the array and whether or
  -- not the segment is full. The call is in the state behind the acknowledgements, which starts
  -- from that in which the packet has been taken out of the buffer, its acknowledgement recorded
  -- and the packet counted.
  pub process_round-segment :
      (d : Documented c) (t : Trans c H) (do_acks return_control found : Bool) (s s₂ : Link c H)
      (k ctl : ℕ) (z rest : Bytes)
      → Arrived s k ctl (segment (packlen k) z) rest
      → length z ≤ packlen k
      → control_tt ctl ≡ segment_type (packlen k) z
      → control_xxx ctl ≡ next_seq s.rec_seq
      → s.retransmit_seq ≡ none
      → s.local_ack < 8
      → (let s₁ = count_packet (accepted t k ctl s) in if do_acks then send_acks s₁ else done tt s₁)
        ≡ done tt s₂
      → used s₂.port + packlen k ≤ crecbuflen
      → Delivers t return_control s₂ (process_round t do_acks return_control found s) z
  process_round-segment d t do_acks return_control found s s₂ k ctl z rest a le type seq none_left
        hl acks free =
      let seg = segment (packlen k) z in
      let pos : 0 < length seg = rw a.size (packlen-bounds k a.k_lt).0 in
      let (b, e) = blocks-segment s.port k ctl (checksum seg) seg rest a.valid a.bytes pos in
      let b' : Behind s.port (packlen k) (data_blocks s.port (packlen k)) = rw (← a.size) b in
      let e' : block_bytes s.port.prec_buf (data_blocks s.port (packlen k)) ≡ seg =
        ap (λ n. block_bytes s.port.prec_buf (data_blocks s.port n)) (sym a.size) ∙ e in
      let s₁ = count_packet (accepted t k ctl s) in
      let kept =
        send_acks-Kept d do_acks s₁ s₂ (record { start_in = omega arith; end_in = a.valid.end_in })
          hl (omega arith) acks in
      let still : block_bytes s₂.port.prec_buf (data_blocks s.port (packlen k)) ≡ seg =
        block_bytes-Kept s.port s₁.port s₂.port (packlen k) a.valid (rw (← a.size) pos)
          (packet_fits a) refl refl kept free
        ∙ e' in
      let h = header_of (data_header k ctl (checksum seg)) in
      let x : process_round t do_acks return_control found s
          ≡ data_packet t do_acks return_control found h (data_blocks s.port (packlen k))
              (accepted t k ctl s) =
        process_round-Arrived t do_acks return_control found s k ctl seg rest a
        ∙ accept-expected t do_acks return_control found h (data_blocks s.port (packlen k)) k s
            a.not_control seq none_left in
      rw x (
        data_packet-segment t do_acks return_control found (accepted t k ctl s) s₂ h
          (data_blocks s.port (packlen k)) (packlen k) z acks seq type b'.first_pos b'.second_ok
          b'.total still le)
