-- ===== src/G/Resend/Resume.antt =====
-- What `fggot_ack` sends while packets are sent again.
use taylor_uucp.Base.{
  ℕ, zero, suc, ◌+◌, ◌<◌, ◌≡◌, ◌∙◌, refl, sym, ap, ap₂, false, Bool-cases, inl, inr, Option, none,
  some, [], ◌++◌, append-nil, Bytes, leb, ◌==◌, if◌then◌else◌, arith,
}
use mathlib.Core.Path.{subst}
use taylor_uucp.Base.Outcome.{Ends, Ends-then, Ends-map, done, ◌then◌}
use taylor_uucp.Prot.{Conn}
use taylor_uucp.Prot.Room.{IsValid}
use taylor_uucp.Prot.Transfer.{Documented, Sent, Sent-refl, Sent-trans}
use taylor_uucp.G.{Link, Trans, next_seq, seq_diff, transmit}
use taylor_uucp.G.Acks.{Wrote, transmit_lem}
use taylor_uucp.G.Resend.{
  adjust_ack, packet, resend_next, record_ack, continue_resend, go_on, got_ack,
}

-- At most two of the packets that are left.
abbrev pub resume_count : ℕ → ℕ
resume_count left = if leb left 2 then left else 2

-- The packet to go on behind, where at least two are left.
abbrev pub resume_at : ℕ → ℕ → Option ℕ
resume_at left seq = if leb left 1 then none else some (next_seq (next_seq seq))

module _ {c : Conn} (d : Documented c) {H : Type 0} where
  -- A packet as it is sent again.
  abbrev pub again : Link c H → ℕ → Bytes
  again s seq = packet (adjust_ack s.rec_seq (s.send_buffers seq))

  -- The `n` packets behind `seq`, in order.
  abbrev pub agains : Link c H → ℕ → ℕ → Bytes
  agains s zero seq = []
  agains s (suc n) seq = again s (next_seq seq) ++ agains s n (next_seq seq)

  -- One packet has been sent again.
  record Resent (s : Link c H) (seq : ℕ) (s' : Link c H) : Type 0 where
    pub sent : Sent d s.port (again s seq) s'.port
    pub others : (i : ℕ) → (i == seq) ≡ false → s'.send_buffers i ≡ s.send_buffers i
    pub same_rec : s'.rec_seq ≡ s.rec_seq
    pub same_seq : s'.send_seq ≡ s.send_seq
    pub same_ack : s'.remote_ack ≡ s.remote_ack
    pub counted : s'.resent_packets ≡ s.resent_packets + 1

  resend_next-Resent :
      (seq : ℕ) (s : Link c H)
      → IsValid s.port
      → Ends (λ _ s'. Resent s seq s') (λ s'. IsValid s'.port) (resend_next seq s)
  unfolding resend_next
  resend_next-Resent seq s v =
      let m = adjust_ack s.rec_seq (s.send_buffers seq) in
      let s₁ = record s {
        resent_packets = s.resent_packets + 1;
        send_buffers = λ i. if i == seq then m else s.send_buffers i;
      } in
      Ends-map (λ _ s'. Wrote d s₁ (packet m) s') (λ _ s'. Resent s seq s') (λ s'. IsValid s'.port)
        (transmit (packet m) s₁)
        (λ _ s' w.
          subst (λ r. Resent s seq r) (sym w.same)
            (record {
              sent = w.sent;
              others = λ i ne. rw ne refl;
              same_rec = refl;
              same_seq = refl;
              same_ack = refl;
              counted = refl;
            }))
        (transmit_lem d (packet m) s₁ v)

  -- What going on behind packet `seq` with `left` packets left does.
  pub record Resumed (left seq : ℕ) (s s' : Link c H) : Type 0 where
    pub sent : Sent d s.port (agains s (resume_count left) seq) s'.port
    pub resume : s'.retransmit_seq ≡ resume_at left seq
    pub same_ack : s'.remote_ack ≡ s.remote_ack
    pub counted : s'.resent_packets ≡ s.resent_packets + resume_count left

  counted-Resumed :
      (left seq n : ℕ) (o : Option ℕ) (s s' : Link c H)
      → resume_count left ≡ n
      → resume_at left seq ≡ o
      → Sent d s.port (agains s n seq) s'.port
      → s'.retransmit_seq ≡ o
      → s'.remote_ack ≡ s.remote_ack
      → s'.resent_packets ≡ s.resent_packets + n
      → Resumed left seq s s'
  counted-Resumed left seq n o s s' en eo sent resume same_ack counted = record {
    sent = subst (λ k. Sent d s.port (agains s k seq) s'.port) (sym en) sent;
    resume = resume ∙ sym eo;
    same_ack = same_ack;
    counted = counted ∙ ap (λ k. s.resent_packets + k) (sym en);
  }

  module _ (seq : ℕ) (s : Link c H) (v : IsValid s.port) (h : s.send_seq < 8) where
    second_resend :
        (left : ℕ)
        → 1 < left
        → (s₁ : Link c H) → Resent s (next_seq seq) s₁
        → Ends {0, 0, 0}
            (λ _ s'. Resumed left seq s s')
            (λ s'. IsValid s'.port)
            (resend_next (next_seq (next_seq seq)) s₁ then λ _ s₂.
              done tt (record s₂ { retransmit_seq = some (next_seq (next_seq seq)) }))
    second_resend left hl s₁ r =
        let one = next_seq seq in
        let two = next_seq one in
        let ne : (two == one) ≡ false = ground arith in
        let same : again s₁ two ≡ again s two =
          ap₂ (λ x m. packet (adjust_ack x m)) r.same_rec (r.others two ne) in
        Ends-then (λ _ s₂. Resent s₁ two s₂) (λ _ s'. Resumed left seq s s') (λ s'. IsValid s'.port)
          (resend_next two s₁) _ (resend_next-Resent two s₁ r.sent.valid)
          (λ _ s₂ r₂.
            counted-Resumed left seq 2 (some two) s (record s₂ { retransmit_seq = some two })
              (ground arith) (ground arith)
              (Sent-trans d s.port s₁.port s₂.port (again s one) (again s₁ two)
                (again s one ++ (again s two ++ [])) r.sent r₂.sent
                (ap (λ w. again s one ++ w) (same ∙ sym (append-nil (again s two)))))
              refl (r₂.same_ack ∙ r.same_ack) (omega (arith, r.counted, r₂.counted)))

    continue_resend-Resumed :
        Ends
          (λ _ s'. Resumed (seq_diff s.send_seq (next_seq seq)) seq s s')
          (λ s'. IsValid s'.port)
          (continue_resend seq s)
    unfolding continue_resend
    continue_resend-Resumed =
        let one = next_seq seq in
        let two = next_seq one in
        let left = seq_diff s.send_seq one in
        elim (Bool-cases (one == s.send_seq)) [
          | inl e ↦
              let z : left ≡ 0 = ground arith in
              rw e (
                counted-Resumed left seq 0 none s (record s { retransmit_seq = none })
                  (ground (arith, z)) (ground (arith, z)) (Sent-refl d s.port v) refl refl
                  (omega arith))
          | inr e ↦ rw e (
              Ends-then (λ _ s₁. Resent s one s₁) (λ _ s'. Resumed left seq s s')
                (λ s'. IsValid s'.port) (resend_next one s) _ (resend_next-Resent one s v)
                (λ _ s₁ r. after_one left refl e s₁ r))
        ]
      where
        after_one :
            (left : ℕ)
            → left ≡ seq_diff s.send_seq (next_seq seq)
            → (next_seq seq == s.send_seq) ≡ false
            → (s₁ : Link c H) → Resent s (next_seq seq) s₁
            → Ends {0, 0, 0}
                (λ _ s'. Resumed left seq s s')
                (λ s'. IsValid s'.port)
                (if next_seq (next_seq seq) == s₁.send_seq
                  then done tt (record s₁ { retransmit_seq = none })
                  else (resend_next (next_seq (next_seq seq)) s₁ then λ _ s₂.
                      done tt (record s₂ { retransmit_seq = some (next_seq (next_seq seq)) })))
        after_one left w ne s₁ r =
            let one = next_seq seq in
            let two = next_seq one in
            elim (Bool-cases (two == s₁.send_seq)) [
              | inl e ↦
                  let z : left ≡ 1 = ground (arith, r.same_seq, ne, w) in
                  rw e (
                    counted-Resumed left seq 1 none s (record s₁ { retransmit_seq = none })
                      (ground (arith, z)) (ground (arith, z))
                      (subst (λ w. Sent d s.port w s₁.port) (sym (append-nil (again s one))) r.sent)
                      refl r.same_ack r.counted)
              | inr e ↦ rw e (second_resend left (ground (arith, r.same_seq, ne, w)) s₁ r)
            ]

  -- Over a connection that does what conn.h says, with the buffer's indices in range and the next
  -- sequence number to send below 8, while packet `seq` is the last one that was sent again,
  -- `fggot_ack` returns. If it is TRUE it has written again the packets behind `seq`, in order,
  -- at most two and none that was not yet sent, each with the acknowledgement `iGrecseq` in its
  -- header; sending again goes on behind the second of them if there were at least two, and is
  -- over otherwise; the acknowledgement is recorded and the packets are counted. If it is FALSE
  -- the indices are still in range.
  pub got_ack-Resumed :
      (t : Trans c H) (ack seq : ℕ) (s : Link c H)
      → IsValid s.port
      → s.send_seq < 8
      → s.retransmit_seq ≡ some seq
      → Ends
          (λ _ s'. Resumed (seq_diff s.send_seq (next_seq seq)) seq (record_ack t ack s) s')
          (λ s'. IsValid s'.port)
          (got_ack t ack s)
  unfolding got_ack go_on
  got_ack-Resumed t ack seq s v h e =
      let s₁ = record_ack t ack s in
      subst
        (λ o.
          Ends (λ _ s'. Resumed (seq_diff s.send_seq (next_seq seq)) seq s₁ s')
            (λ s'. IsValid s'.port) (go_on o s₁))
        (sym e) (continue_resend-Resumed seq s₁ v h)
