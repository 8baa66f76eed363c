-- ===== src/G/Acks.antt =====
-- `fgsend_acks`: which acknowledgements it sends, and that it ends.
use taylor_uucp.Base.{ℕ, zero, suc, ◌<◌, ◌≡◌, refl, sym, true, false, [], ◌++◌, Bytes, ◌==◌, arith}
use mathlib.Core.Path.{subst}
use taylor_uucp.Base.Outcome.{Outcome, done, failed, stuck, Ends, Ends-then, Ends-map}
use taylor_uucp.Prot.{Conn, Port, send_data}
use taylor_uucp.Prot.Room.{IsValid}
use taylor_uucp.Prot.Transfer.{Documented, Sent, Sent-refl, Sent-trans, send_data_lem}
use taylor_uucp.G.Frame.{control_bytes, control_frame_lem}
use taylor_uucp.G.{
  Link, rr, next_seq, seq_diff, control_frame, on_port, transmit, send_control, acks_loop,
  send_acks,
}

-- The acknowledgements of the `n` packets after `ack`, in order.
abbrev pub rr_frames : ℕ → ℕ → Bytes
rr_frames zero ack = []
rr_frames (suc n) ack = control_bytes rr (next_seq ack) ++ rr_frames n (next_seq ack)

module _ {c : Conn} (d : Documented c) {H : Type 0} where
  -- The call wrote `z` and changed nothing but the port.
  pub record Wrote (s : Link c H) (z : Bytes) (s' : Link c H) : Type 0 where
    pub port : Port c
    pub sent : Sent d s.port z port
    pub same : s' ≡ record s { port = port }

  on_port_lem :
      (z : Bytes) (s : Link c H) (o : Outcome (Port c) (Unit {0}))
      → Ends (λ _ q. Sent d s.port z q) IsValid o
      → Ends (λ _ s'. Wrote s z s') (λ s'. IsValid s'.port) (on_port s o)
  on_port_lem z s (done a q) h = record { port = q; sent = h; same = refl }
  on_port_lem z s (failed q) h = h
  on_port_lem z s stuck h = elim h [ ]

  pub transmit_lem :
      (z : Bytes) (s : Link c H)
      → IsValid s.port
      → Ends (λ _ s'. Wrote s z s') (λ s'. IsValid s'.port) (transmit z s)
  unfolding transmit
  transmit_lem z s v = on_port_lem z s (send_data s.port z true) (send_data_lem d s.port z true v)

  -- A control packet with these fields.
  pub send_control-Wrote :
      (xxx yyy : ℕ) (s : Link c H)
      → xxx < 8
      → yyy < 8
      → IsValid s.port
      → Ends
          (λ _ s'. Wrote s (control_bytes xxx yyy) s')
          (λ s'. IsValid s'.port)
          (send_control xxx yyy s)
  unfolding send_control
  send_control-Wrote xxx yyy s hx hy v =
      subst (λ z. Ends (λ _ s'. Wrote s z s') (λ s'. IsValid s'.port) (send_control xxx yyy s))
        (control_frame_lem xxx yyy hx hy) (transmit_lem (control_frame xxx yyy) s v)

  -- What is left to acknowledge is acknowledged, and nothing else changes but the port.
  pub record Acked (n : ℕ) (s s' : Link c H) : Type 0 where
    pub link_port : Port c
    pub sent : Sent d s.port (rr_frames n s.local_ack) link_port
    pub same : s' ≡ record s { port = link_port; local_ack = s.rec_seq }

  acks_loop-Acked :
      (f n : ℕ) (s : Link c H)
      → IsValid s.port
      → s.local_ack < 8
      → s.rec_seq < 8
      → n ≡ seq_diff s.rec_seq s.local_ack
      → n < f
      → Ends (λ _ s'. Acked n s s') (λ s'. IsValid s'.port) (acks_loop f s)
  unfolding acks_loop
  acks_loop-Acked zero n s v hl hr e h = absurd (omega arith)
  acks_loop-Acked (suc f) zero s v hl hr e h =
      let same : s.local_ack ≡ s.rec_seq = omega arith in
      let t : (s.local_ack == s.rec_seq) ≡ true = ground arith in
      rw (t, Ends)
        (record {
          link_port = s.port;
          sent = Sent-refl d s.port v;
          same = λ i. record s { port = s.port; local_ack = same i };
        })
  acks_loop-Acked (suc f) (suc n) s v hl hr e h =
      let t : (s.local_ack == s.rec_seq) ≡ false = ground arith in
      let ack = next_seq s.local_ack in
      let s₁ = record s { local_ack = ack } in
      let z = control_bytes rr ack in
      rw (t, Ends)
        (Ends-then (λ _ s'. Wrote s₁ z s') (λ _ s'. Acked (suc n) s s') (λ s'. IsValid s'.port)
          (send_control rr ack s₁) (λ _ s'. acks_loop f s')
          (send_control-Wrote rr ack s₁ (omega arith) (omega arith) v)
          (λ _ s' w.
            let s₂ = record s₁ { port = w.port } in
            subst (λ r. Ends (λ _ s'. Acked (suc n) s s') (λ s'. IsValid s'.port) (acks_loop f r))
              (sym w.same)
              (Ends-map (λ _ r. Acked n s₂ r) (λ _ r. Acked (suc n) s r) (λ s'. IsValid s'.port)
                (acks_loop f s₂)
                (λ _ r a. record {
                  link_port = a.link_port;
                  sent =
                      Sent-trans d s.port w.port a.link_port z (rr_frames n ack)
                        (rr_frames (suc n) s.local_ack) w.sent a.sent refl;
                  same = a.same;
                })
                (acks_loop-Acked f n s₂ w.sent.valid (omega arith) hr (omega arith)
                  (omega arith)))))

  -- Over a connection that does what conn.h says, with the buffer's indices in range and both
  -- sequence numbers below 8, `fgsend_acks` returns. If it is TRUE it has written for each packet
  -- received since the last acknowledgement, in order and nothing else, an RR packet whose
  -- control byte holds the number of that packet, with the check word and check byte of that
  -- control byte; all are acknowledged, and the rest of the state is as it was but for the port;
  -- if it is FALSE the indices are still in range.
  pub send_acks_lem :
      (s : Link c H)
      → IsValid s.port
      → s.local_ack < 8
      → s.rec_seq < 8
      → Ends
          (λ _ s'. Acked (seq_diff s.rec_seq s.local_ack) s s')
          (λ s'. IsValid s'.port)
          (send_acks s)
  unfolding send_acks
  send_acks_lem s v hl hr =
      acks_loop-Acked 8 (seq_diff s.rec_seq s.local_ack) s v hl hr refl (omega arith)
