-- ===== src/G/RoundTrip.antt =====
-- From `fgsenddata` on one side to `fgot_data` on the other.
use taylor_uucp.Base.{
  ℕ, ◌+◌, ◌^◌, ◌≤◌, ◌<◌, ◌≡◌, ◌≢◌, inl, inr, sym, ap, ◌∙◌, Bool, none, ◌++◌, append_assoc, Bytes,
  length, ◌==◌, Bool-cases, if◌then◌else◌, arith,
}
use mathlib.Core.Path.{subst}
use taylor_uucp.Base.Outcome.{done}
use taylor_uucp.Prot.{Conn, crecbuflen}
use taylor_uucp.Prot.Room.{IsValid, contents, used}
use taylor_uucp.Prot.Transfer.{Documented}
use taylor_uucp.G.{
  Link, Trans, framelen, packlen, control, altchan, control_tt, next_seq, read_mem, send_acks,
}
use taylor_uucp.G.Checksum.{checksum}
use taylor_uucp.G.Frame.{data_header, data_control, data_control_fields}
use taylor_uucp.G.Memory.{length-read_mem}
use taylor_uucp.G.Payload.{segment, segment_type}
use taylor_uucp.G.Receive.{process_round}
use taylor_uucp.G.Receive.Actions.{count_packet}
use taylor_uucp.G.Receive.Arrive.{Arrived}
use taylor_uucp.G.Receive.Deliver.{Delivers, accepted, process_round-segment}
use taylor_uucp.G.Send.{end_header}
use taylor_uucp.G.Send.Frame.{place_data-bytes}
use taylor_uucp.G.Send.Place.{Placed, place_data}
use taylor_uucp.G.Send.Place.Layout.{place_data_lem}

-- The packet that `fgsenddata` sends for a layout: with the control byte `ctl`.
abbrev pub sent_bytes : Placed → ℕ → Bytes → Bytes
sent_bytes p ctl z =
    read_mem (end_header p.header ctl (checksum (segment p.size z)) p.mem) p.header
      (framelen + p.size)

-- The layout of `cdata` bytes on a link with that segment size, and the control byte for it.
abbrev pub layout : ℕ → Bool → ℕ → (ℕ → ℕ) → Placed
layout segsize short cdata m = place_data (2 ^ (segsize + 1 + 4)) segsize short cdata m

abbrev pub layout_control : ℕ → Bool → ℕ → (ℕ → ℕ) → ℕ → ℕ → ℕ
layout_control segsize short cdata m seq ack =
    data_control (layout segsize short cdata m).tt seq ack

-- A data packet's type.
segment_type-bounds :
    (size : ℕ) (z : Bytes)
    → (segment_type size z < 4) × (segment_type size z ≢ control) × (segment_type size z ≢ altchan)
segment_type-bounds size z = elim (Bool-cases (length z == size)) [
  | inl t ↦ rw t (omega arith)
  | inr t ↦ rw t (omega arith)
]

module _ {c : Conn} {H : Type 0} where
  -- From one side to the other: at most 2^(segsize + 5) bytes of data, with segsize at most 7,
  -- are laid out and completed by `fgsenddata` with a sequence number and an acknowledgement
  -- below 8. On the other side, over a connection that does what conn.h says, these bytes are
  -- what the receive buffer starts with, wherever in the array, its indices are in range, the
  -- sequence number is the one it expects, it retransmits nothing and its own last
  -- acknowledgement is below 8. If the acknowledgements that `fgprocess_data` sends for the
  -- packet, where `fdoacks` asks for them, are sent, and what they have read leaves as many bytes
  -- of the array free as the packet's data takes, then one round passes exactly the sender's data
  -- to `fgot_data`, in at most two pieces, in the state behind the acknowledgements.
  pub process_round-place_data :
      (d : Documented c) (t : Trans c H) (do_acks return_control found : Bool) (s s₂ : Link c H)
      (segsize : ℕ) (short : Bool) (cdata seq ack : ℕ) (m : ℕ → ℕ) (rest : Bytes)
      → segsize ≤ 7
      → cdata ≤ 2 ^ (segsize + 1 + 4)
      → seq < 8
      → ack < 8
      → IsValid s.port
      → contents s.port
        ≡ sent_bytes
            (layout segsize short cdata m)
            (layout_control segsize short cdata m seq ack)
            (read_mem m 8 cdata)
          ++ rest
      → seq ≡ next_seq s.rec_seq
      → s.retransmit_seq ≡ none
      → s.local_ack < 8
      → (let s₁ = count_packet (
            accepted t
              (layout segsize short cdata m).seg
              (layout_control segsize short cdata m seq ack)
              s) in
          if do_acks then send_acks s₁ else done tt s₁)
        ≡ done tt s₂
      → used s₂.port + packlen (layout segsize short cdata m).seg ≤ crecbuflen
      → Delivers t return_control s₂
          (process_round t do_acks return_control found s)
          (read_mem m 8 cdata)
  process_round-place_data d t do_acks return_control found s s₂ segsize short cdata seq ack m rest
        hs hc hq ha v e hr hn hl acks free =
      let p = layout segsize short cdata m in
      let z = read_mem m 8 cdata in
      let ctl = data_control p.tt seq ack in
      let (l, f, _) = place_data_lem segsize short cdata m hs hc in
      let seg = segment p.size z in
      let same : seg ≡ segment (packlen p.seg) z = ap (λ n. segment n z) f.size in
      let ty = segment_type-bounds p.size z in
      let fields = data_control_fields p.tt seq ack (subst (λ n. n < 4) (sym l.type) ty.0) hq ha in
      let tt' : control_tt ctl ≡ segment_type p.size z = fields.1 ∙ l.type in
      let len : length seg ≡ packlen p.seg =
        ap length (sym l.content) ∙ length-read_mem p.mem (p.header + framelen) p.size ∙ f.size in
      let arrived : Arrived s p.seg ctl (segment (packlen p.seg) z) rest = record {
        valid = v;
        bytes =
            e
            ∙ ap (λ w. w ++ rest) (place_data-bytes segsize short cdata ctl m hs hc).1
            ∙ append_assoc (data_header p.seg ctl (checksum seg)) seg rest
            ∙ ap (λ g. data_header p.seg ctl (checksum g) ++ (g ++ rest)) same;
        size = ap length (sym same) ∙ len;
        k_pos = f.seg_pos;
        k_lt = omega (arith, f.seg_le);
        not_control = λ h. ty.1 (sym tt' ∙ h);
        not_altchan = λ h. ty.2 (sym tt' ∙ h);
      } in
      process_round-segment d t do_acks return_control found s s₂ p.seg ctl z rest arrived
        (omega (arith, f.fits, f.size, length-read_mem m 8 cdata))
        (tt' ∙ ap (λ n. segment_type n z) f.size) (fields.2 ∙ hr) hn hl acks free
