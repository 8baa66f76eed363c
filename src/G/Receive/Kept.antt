-- ===== src/G/Receive/Kept.antt =====
-- A packet's data stays in the receive buffer while the acknowledgements are sent (protg.c,
-- `fgprocess_data` and `fgsend_acks`).
use taylor_uucp.Base.{
  ℕ, zero, suc, ◌+◌, ◌%◌, ◌≤◌, ◌<◌, ◌≡◌, refl, sym, ap, ap₂, ◌∙◌, Bool, true, false, ◌∷◌,
  if◌then◌else◌, arith,
}
use mathlib.Core.Path.{subst}
use taylor_uucp.Base.Outcome.{done, Ends, state_of}
use taylor_uucp.Prot.{Conn, Port, crecbuflen}
use taylor_uucp.Prot.Room.{window, used, IsValid}
use taylor_uucp.Prot.Transfer.{Documented, Kept}
use taylor_uucp.G.{Link, framelen, seq_diff, send_acks}
use taylor_uucp.G.Acks.{Acked, send_acks_lem}
use taylor_uucp.G.Receive.Parts.{data_blocks}
use taylor_uucp.G.Receive.Parts.Ring.{data_blocks-Behind, data_blocks_indices}
use taylor_uucp.G.Receive.Parts.Shorten.{block_bytes}

-- Arrays that agree on the indices of a window.
window_congr :
    (m m' : ℕ → ℕ) (n h : ℕ)
    → h < crecbuflen
    → ((i : ℕ) → i < n → m ((h + i) % crecbuflen) ≡ m' ((h + i) % crecbuflen))
    → window m h n ≡ window m' h n
window_congr m m' zero h lt e = refl
window_congr m m' (suc n) h lt e =
    let here : (h + 0) % crecbuflen ≡ h = omega arith in
    ap₂ ◌∷◌ (ap m (sym here) ∙ e 0 (omega arith) ∙ ap m' here) (
      window_congr m m' n ((h + 1) % crecbuflen) (omega arith) (λ i k.
        let next : ((h + 1) % crecbuflen + i) % crecbuflen ≡ (h + suc i) % crecbuflen =
          omega arith in
        ap m next ∙ e (suc i) (omega arith) ∙ ap m' (sym next)))

module _ {c : Conn} where
  -- Behind a packet of `want` bytes that was taken out of the buffer of `p`, as long as the bytes
  -- that wait leave room for its data.
  pub block_bytes-Kept :
      (p p₁ q : Port c) (want : ℕ)
      → IsValid p
      → 0 < want
      → framelen + want ≤ used p
      → p₁.prec_start ≡ (p.prec_start + (want + framelen)) % crecbuflen
      → p₁.prec_buf ≡ p.prec_buf
      → Kept p₁ q
      → used q + want ≤ crecbuflen
      → block_bytes q.prec_buf (data_blocks p want) ≡ block_bytes p.prec_buf (data_blocks p want)
  block_bytes-Kept p p₁ q want v pos fits start buf kept le =
      let h = (p.prec_start + framelen) % crecbuflen in
      let p' : Port c = record p { prec_buf = q.prec_buf } in
      let v' : IsValid p' = record { start_in = v.start_in; end_in = v.end_in } in
      ap (block_bytes q.prec_buf) (sym (data_blocks_indices p q.prec_buf want))
      ∙ (data_blocks-Behind p' want v' pos fits).bytes
      ∙ window_congr q.prec_buf p.prec_buf want h (omega arith) (λ i k.
        kept ((h + i) % crecbuflen) (omega arith) (omega arith)
        ∙ ap (λ m. m ((h + i) % crecbuflen)) buf)
      ∙ sym (data_blocks-Behind p want v pos fits).bytes

module _ {c : Conn} (d : Documented c) {H : Type 0} where
  -- While the acknowledgements are sent, where they are.
  pub send_acks-Kept :
      (do_acks : Bool) (s s' : Link c H)
      → IsValid s.port
      → s.local_ack < 8
      → s.rec_seq < 8
      → (if do_acks then send_acks s else done tt s) ≡ done tt s'
      → Kept s.port s'.port
  send_acks-Kept true s s' v hl hr e =
      let a : Acked d (seq_diff s.rec_seq s.local_ack) s s' =
        subst
          (λ o. Ends (λ _ r. Acked d (seq_diff s.rec_seq s.local_ack) s r) (λ r. IsValid r.port) o)
          e (send_acks_lem d s v hl hr) in
      subst (λ r. Kept s.port r.port) (sym a.same) a.sent.kept
  send_acks-Kept false s s' v hl hr e =
      subst (λ r. Kept s.port r.port) (ap (state_of s) e) (λ j h k. refl)
