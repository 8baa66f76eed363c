-- ===== src/G/Receive/Damaged.antt =====
-- What `fgprocess_data` does with a packet whose checksum is wrong (protg.c).
use taylor_uucp.Base.{
  ℕ, suc, ◌+◌, ◌-◌, ◌%◌, ◌^◌, ◌<◌, ◌≡◌, ◌≢◌, inl, inr, refl, sym, ap, ◌∙◌, Bool, true, false, [],
  ◌++◌, append-nil, Bytes, drop, ◌==◌, if◌then◌else◌, Bool-cases, arith,
}
use mathlib.Core.Path.{subst}
use taylor_uucp.Base.Outcome.{Outcome, done, ◌then◌, Ends, Ends-then}
use taylor_uucp.Prot.{Conn, Port, crecbuflen}
use taylor_uucp.Prot.Room.{window, window_of_ne_zero, used, contents, IsValid}
use taylor_uucp.Prot.Transfer.{Documented, Sent, Sent-refl, Sent-trans}
use taylor_uucp.G.{
  Link, Trans, rj, control, control_tt, control_xxx, next_seq, seq_diff, send_acks, send_control,
  check_errors,
}
use taylor_uucp.G.Acks.{rr_frames, Wrote, send_control-Wrote, Acked, send_acks_lem}
use taylor_uucp.G.Checksum.{checksum}
use taylor_uucp.G.Frame.{data_header, control_bytes}
use taylor_uucp.G.Receive.{process_round}
use taylor_uucp.G.Receive.Actions.{again, refuse_checksum, advance}
use taylor_uucp.G.Receive.Arrive.{Whole, packet_fits, process_round-refuse}
use taylor_uucp.G.Receive.Parts.{Header, header_of}

module _ {c : Conn} where
  -- One byte less.
  drop-contents :
      (p : Port c)
      → IsValid p
      → 0 < used p
      → contents (record p { prec_start = (p.prec_start + 1) % crecbuflen }) ≡ drop 1 (contents p)
  drop-contents p v pos =
      let e : used p ≡ suc (used p - 1) = omega arith in
      let l : used p - 1 ≡ used (record p { prec_start = (p.prec_start + 1) % crecbuflen }) =
        omega (arith, v.start_in, v.end_in) in
      ap (λ n. window p.prec_buf ((p.prec_start + 1) % crecbuflen) n) (sym l)
      ∙ sym (ap (drop 1) (window_of_ne_zero p.prec_buf p.prec_start (used p) (used p - 1) e))

module _ {c : Conn} (d : Documented c) {H : Type 0} where
  -- What is written: the acknowledgements that are due, and a reject if the packet has the
  -- expected sequence number.
  abbrev pub answers : Link c H → ℕ → Bytes
  answers s ctl =
      rr_frames (seq_diff s.rec_seq s.local_ack) s.local_ack
      ++ (if control_xxx ctl == next_seq s.rec_seq then control_bytes rj s.rec_seq else [])

  -- The packets that may come out of order: after a reject, the rest of the window.
  abbrev pub expected : Link c H → ℕ → ℕ
  expected s ctl =
      if control_xxx ctl == next_seq s.rec_seq
      then s.expect_bad_order + (s.request_winsize - 1)
      else s.expect_bad_order

  -- `z` has been written, and only the fields for it have changed.
  record Answered (s : Link c H) (z : Bytes) (n : ℕ) (s' : Link c H) : Type 0 where
    pub sent : Sent d s.port z s'.port
    pub same : s' ≡ record s { port = s'.port; local_ack = s.rec_seq; expect_bad_order = n }

  due :
      (s : Link c H)
      → IsValid s.port
      → s.local_ack < 8
      → s.rec_seq < 8
      → Ends
          (λ _ s'. Acked d (seq_diff s.rec_seq s.local_ack) s s')
          (λ s'. IsValid s'.port)
          (if s.rec_seq == s.local_ack then done tt s else send_acks s)
  due s v hl hr = elim (Bool-cases (s.rec_seq == s.local_ack)) [
    | inl t ↦
        let same : s.local_ack ≡ s.rec_seq = ground arith in
        let e : seq_diff s.rec_seq s.local_ack ≡ 0 = omega arith in
        rw (t, e, Ends)
          (record {
            link_port = s.port;
            sent = Sent-refl d s.port v;
            same = λ i. record s { port = s.port; local_ack = same i };
          })
    | inr t ↦ rw (t, Ends) (send_acks_lem d s v hl hr)
  ]

  -- Behind the acknowledgements.
  abbrev reject_if : Bool → Link c H → Outcome (Link c H) (Unit {0})
  reject_if x s =
      if x
      then (send_control rj s.rec_seq s then λ _ s₃.
          done tt (record s₃ { expect_bad_order = s₃.expect_bad_order + (s₃.request_winsize - 1) }))
      else done tt s

  module _ (s : Link c H) (z : Bytes) where
    reject_if-Answered :
        (x : Bool) (q : Port c)
        → s.rec_seq < 8
        → Sent d s.port z q
        → Ends
            (λ _ s'.
              Answered s
                (z ++ (if x then control_bytes rj s.rec_seq else []))
                (if x then s.expect_bad_order + (s.request_winsize - 1) else s.expect_bad_order)
                s')
            (λ s'. IsValid s'.port)
            (reject_if x (record s { port = q; local_ack = s.rec_seq }))
    reject_if-Answered true q hr sent =
        let r = record s { port = q; local_ack = s.rec_seq } in
        let frame = control_bytes rj s.rec_seq in
        let n = s.expect_bad_order + (s.request_winsize - 1) in
        Ends-then (λ _ s'. Wrote d r frame s') (λ _ s'. Answered s (z ++ frame) n s')
          (λ s'. IsValid s'.port) (send_control rj s.rec_seq r)
          (λ _ s₃.
            done tt
              (record s₃ { expect_bad_order = s₃.expect_bad_order + (s₃.request_winsize - 1) }))
          (send_control-Wrote d rj s.rec_seq r (omega arith) hr sent.valid)
          (λ _ s₃ w.
            subst
              (λ p.
                Answered s (z ++ frame) n
                  (record p { expect_bad_order = p.expect_bad_order + (p.request_winsize - 1) }))
              (sym w.same)
              (record {
                sent = Sent-trans d s.port q w.port z frame (z ++ frame) sent w.sent refl;
                same = refl;
              }))
    reject_if-Answered false q hr sent = record {
      sent = subst (λ y. Sent d s.port y q) (sym (append-nil z)) sent;
      same = refl;
    }

  rejected-Answered :
      (ctl : ℕ) (s s₂ : Link c H)
      → s.rec_seq < 8
      → Acked d (seq_diff s.rec_seq s.local_ack) s s₂
      → Ends
          (λ _ s'. Answered s (answers s ctl) (expected s ctl) s')
          (λ s'. IsValid s'.port)
          (reject_if (control_xxx ctl == next_seq s₂.rec_seq) s₂)
  rejected-Answered ctl s s₂ hr a =
      subst
        (λ r.
          Ends (λ _ s'. Answered s (answers s ctl) (expected s ctl) s') (λ s'. IsValid s'.port)
            (reject_if (control_xxx ctl == next_seq r.rec_seq) r))
        (sym a.same)
        (reject_if-Answered s (rr_frames (seq_diff s.rec_seq s.local_ack) s.local_ack)
          (control_xxx ctl == next_seq s.rec_seq) a.link_port hr a.sent)

  -- The packet has not been taken: the search goes on behind its first byte.
  pub record Refused (s : Link c H) (ctl : ℕ) (s' : Link c H) : Type 0 where
    pub valid : IsValid s'.port
    pub wrote : d.wrote s'.port.net ≡ d.wrote s.port.net ++ answers s ctl
    pub rec : Bytes
    pub read : contents s'.port ≡ drop 1 (contents s.port ++ rec)
    pub same : s' ≡ record s {
      port = s'.port;
      local_ack = s.rec_seq;
      bad_checksum = s.bad_checksum + 1;
      error_level = s.error_level + 1;
      expect_bad_order = expected s ctl;
    }

  counted : Link c H → Link c H
  counted s = record s { bad_checksum = s.bad_checksum + 1; error_level = s.error_level + 1 }

  advance-Refused :
      (s : Link c H) (ctl : ℕ) (s' : Link c H)
      → 0 < used s.port
      → Answered (counted s) (answers s ctl) (expected s ctl) s'
      → Refused s ctl (advance 1 s')
  unfolding counted
  advance-Refused s ctl s' pos a = record {
    valid = record { start_in = omega arith; end_in = a.sent.valid.end_in };
    wrote = a.sent.written;
    rec = a.sent.rec;
    read =
        drop-contents s'.port a.sent.valid (omega (arith, pos, a.sent.grown))
        ∙ ap (drop 1) a.sent.read;
    same = ap (advance 1) a.same;
  }

  refuse_checksum-Refused :
      (found : Bool) (h : Header) (s : Link c H)
      → IsValid s.port
      → 0 < used s.port
      → s.local_ack < 8
      → s.rec_seq < 8
      → control_tt h.control ≢ control
      → Ends
          (λ next s'. (next ≡ again found) × Refused s h.control s')
          (λ s'. IsValid s'.port)
          (refuse_checksum found h s)
  unfolding refuse_checksum counted
  refuse_checksum-Refused found h s v pos hl hr nc =
      let t : (control_tt h.control == control) ≡ false = ground arith in
      let s₁ = counted s in
      elim (Bool-cases (check_errors s₁)) [
        | inr bad ↦ rw (bad, Ends) v
        | inl good ↦
            rw (good, t, Ends)
              (Ends-then (λ _ s'. Answered s₁ (answers s h.control) (expected s h.control) s')
                (λ next s'. (next ≡ again found) × Refused s h.control s') (λ s'. IsValid s'.port)
                ((if s₁.rec_seq == s₁.local_ack then done tt s₁ else send_acks s₁) then λ _ s₂.
                  reject_if (control_xxx h.control == next_seq s₂.rec_seq) s₂)
                (λ _ s₄. done (again found) (advance 1 s₄))
                (Ends-then (λ _ s'. Acked d (seq_diff s.rec_seq s.local_ack) s₁ s')
                  (λ _ s'. Answered s₁ (answers s h.control) (expected s h.control) s')
                  (λ s'. IsValid s'.port)
                  (if s₁.rec_seq == s₁.local_ack then done tt s₁ else send_acks s₁)
                  (λ _ s₂. reject_if (control_xxx h.control == next_seq s₂.rec_seq) s₂)
                  (due s₁ v hl hr) (λ _ s₂ a. rejected-Answered h.control s₁ s₂ hr a))
                (λ _ s₄ a. (refl, advance-Refused s h.control s₄ pos a)))
      ]

  -- Over a connection that does what conn.h says: the receive buffer's indices are in range, its
  -- contents start with a data packet that is whole but whose header carries another 16-bit
  -- checksum `chk` than that of the segment behind it, and the sequence numbers received and
  -- acknowledged are below 8. Then a round of `fgprocess_data` returns, whatever the flags. If it
  -- goes on, the packet has not been taken: the search continues one byte further on, nothing is
  -- lost of the bytes that wait or were read, the acknowledgements that are due have been written
  -- and, if the packet had the expected sequence number, a reject of it, for which the rest of
  -- the window is expected out of order. The bad checksum and the error are counted, everything
  -- received so far counts as acknowledged, and nothing else has changed, neither the sequence
  -- number received nor the host's state. If it returns FALSE the indices are still in range.
  pub process_round_damaged :
      (t : Trans c H) (do_acks return_control found : Bool) (s : Link c H) (k ctl chk : ℕ)
      (seg rest : Bytes)
      → Whole s k ctl chk seg rest
      → chk < 2 ^ 16
      → ctl < 2 ^ 8
      → chk ≢ checksum seg
      → s.local_ack < 8
      → s.rec_seq < 8
      → Ends
          (λ next s'. (next ≡ again found) × Refused s ctl s')
          (λ s'. IsValid s'.port)
          (process_round t do_acks return_control found s)
  process_round_damaged t do_acks return_control found s k ctl chk seg rest a hc hk ne hl hr =
      let h = header_of (data_header k ctl chk) in
      rw (process_round-refuse t do_acks return_control found s k ctl chk seg rest a hc hk ne) (
        refuse_checksum-Refused found h s a.valid (omega (arith, packet_fits a)) hl hr
          a.not_control)
