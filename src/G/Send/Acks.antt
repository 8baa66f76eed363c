-- ===== src/G/Send/Acks.antt =====
-- The acknowledgements that `fgsenddata` sends on their own before a data packet.
use taylor_uucp.Base.{
  ℕ, zero, suc, ◌+◌, ◌-◌, ◌%◌, ◌<◌, ◌≡◌, refl, sym, ap, ◌∙◌, true, false, ltb, arith,
}
use mathlib.Core.Path.{subst}
use taylor_uucp.Base.Outcome.{Ends, Ends-then, Ends-map}
use taylor_uucp.Prot.{Conn, Port}
use taylor_uucp.Prot.Room.{IsValid}
use taylor_uucp.Prot.Transfer.{Documented, Sent, Sent-refl, Sent-trans}
use taylor_uucp.G.{Link, rr, next_seq, seq_diff, send_control}
use taylor_uucp.G.Frame.{control_bytes}
use taylor_uucp.G.Acks.{rr_frames, Wrote, send_control-Wrote}
use taylor_uucp.G.Send.{earlier_acks}

-- The packets that have an acknowledgement of their own.
abbrev pub earlier_count : ℕ → ℕ → ℕ
earlier_count rec ack = seq_diff rec ack - 1

module _ {c : Conn} (d : Documented c) {H : Type 0} where
  -- The next `n` packets are acknowledged, and nothing else changes but the port.
  pub record Earlier (n : ℕ) (s s' : Link c H) : Type 0 where
    pub link_port : Port c
    pub sent : Sent d s.port (rr_frames n s.local_ack) link_port
    pub same : s' ≡ record s { port = link_port; local_ack = (s.local_ack + n) % 8 }

  earlier_acks-Earlier :
      (f n : ℕ) (s : Link c H)
      → IsValid s.port
      → s.local_ack < 8
      → s.rec_seq < 8
      → n ≡ earlier_count s.rec_seq s.local_ack
      → n < f
      → Ends (λ _ s'. Earlier n s s') (λ s'. IsValid s'.port) (earlier_acks f s)
  unfolding earlier_acks
  earlier_acks-Earlier zero n s v hl hr e h = absurd (omega arith)
  earlier_acks-Earlier (suc f) zero s v hl hr e h =
      let t : ltb 1 (seq_diff s.rec_seq s.local_ack) ≡ false = ground arith in
      let same : s.local_ack ≡ (s.local_ack + 0) % 8 = omega arith in
      rw (t, Ends)
        (record {
          link_port = s.port;
          sent = Sent-refl d s.port v;
          same = λ i. record s { port = s.port; local_ack = same i };
        })
  earlier_acks-Earlier (suc f) (suc n) s v hl hr e h =
      let t : ltb 1 (seq_diff s.rec_seq s.local_ack) ≡ true = ground arith in
      let ack = next_seq s.local_ack in
      let s₁ = record s { local_ack = ack } in
      let z = control_bytes rr ack in
      let sum : (ack + n) % 8 ≡ (s.local_ack + suc n) % 8 = omega arith in
      rw (t, Ends)
        (Ends-then (λ _ s'. Wrote d s₁ z s') (λ _ s'. Earlier (suc n) s s') (λ s'. IsValid s'.port)
          (send_control rr ack s₁) (λ _ s'. earlier_acks f s')
          (send_control-Wrote d rr ack s₁ (omega arith) (omega arith) v)
          (λ _ s' w.
            let s₂ = record s₁ { port = w.port } in
            subst
              (λ r. Ends (λ _ s'. Earlier (suc n) s s') (λ s'. IsValid s'.port) (earlier_acks f r))
              (sym w.same)
              (Ends-map (λ _ r. Earlier n s₂ r) (λ _ r. Earlier (suc n) s r) (λ s'. IsValid s'.port)
                (earlier_acks f s₂)
                (λ _ r a. record {
                  link_port = a.link_port;
                  sent =
                      Sent-trans d s.port w.port a.link_port z (rr_frames n ack)
                        (rr_frames (suc n) s.local_ack) w.sent a.sent refl;
                  same = a.same ∙ ap (λ x. record s { port = a.link_port; local_ack = x }) sum;
                })
                (earlier_acks-Earlier f n s₂ w.sent.valid (omega arith) hr (omega arith)
                  (omega arith)))))

  -- Over a connection that does what conn.h says, with the buffer's indices in range and both
  -- sequence numbers below 8, the loop with which `fgsenddata` acknowledges packets on their own
  -- returns within eight rounds. If it succeeds it has written for each received packet that was
  -- not acknowledged but the last, in order and nothing else, an RR packet whose control byte
  -- holds the number of that packet, with the check word and check byte of that control byte, so
  -- that at most one is left for the data packet itself to acknowledge, and the rest of the state
  -- is as it was but for the port; if it fails the indices are still in range.
  pub earlier_acks_lem :
      (s : Link c H)
      → IsValid s.port
      → s.local_ack < 8
      → s.rec_seq < 8
      → Ends
          (λ _ s'.
            Earlier (earlier_count s.rec_seq s.local_ack) s s'
            × (seq_diff s.rec_seq s'.local_ack < 2))
          (λ s'. IsValid s'.port)
          (earlier_acks 8 s)
  earlier_acks_lem s v hl hr =
      let n = earlier_count s.rec_seq s.local_ack in
      Ends-map (λ _ s'. Earlier n s s')
        (λ _ s'. Earlier n s s' × (seq_diff s.rec_seq s'.local_ack < 2)) (λ s'. IsValid s'.port)
        (earlier_acks 8 s)
        (λ _ s' a.
          (a, subst (λ x. seq_diff s.rec_seq x < 2) (sym (ap Link.local_ack a.same)) (omega arith)))
        (earlier_acks-Earlier 8 n s v hl hr refl (omega arith))
