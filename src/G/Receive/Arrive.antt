-- ===== src/G/Receive/Arrive.antt =====
-- A whole data packet in the receive buffer passes every test of its header (protg.c,
-- `fgprocess_data`).
use taylor_uucp.Base.{
  ℕ, ◌+◌, ◌^◌, ◌≤◌, ◌<◌, ◌≡◌, ◌≢◌, refl, sym, ap, ◌∙◌, bit_xor, Bool, true, false, some, ◌++◌,
  Bytes, length, length-append, ltb, ◌==◌, ◌!=◌, arith,
}
use taylor_uucp.Prot.{Conn, Port}
use taylor_uucp.Prot.Room.{used, contents, IsValid, length-window}
use taylor_uucp.G.{
  Link, Trans, framelen, dle, kcontrol, packlen, control, control_tt, word16, shr, low_bits,
  altchan,
}
use taylor_uucp.G.Checksum.{checksum, checksum-lt}
use taylor_uucp.G.Frame.{data_check, data_header, old_check, word16_lem}
use taylor_uucp.G.Payload.{packlen-bounds}
use taylor_uucp.G.Receive.{packet_round, data_round, checked, accept, sought, process_round}
use taylor_uucp.Base.Outcome.{Outcome}
use taylor_uucp.G.{sub_aaaa}
use taylor_uucp.G.Receive.Actions.{Next, refuse_checksum}
use taylor_uucp.G.Receive.Parts.{
  Header, Blocks, header_of, bad_header, seek_dle, cinbuf, data_blocks, block_check,
}
use taylor_uucp.G.Receive.Parts.Short.{head_or}
use taylor_uucp.G.Receive.Parts.Data.{
  window-split, gather-header, blocks-segment, block_bytes-Split, block_check-segment,
}

-- The check word of the header is read back.
check-read :
    (chk ctl : ℕ) → let d = data_check chk ctl in (word16 (shr d 8) (low_bits d 8) != d) ≡ false
check-read chk ctl =
    let d = data_check chk ctl in
    let e : word16 (shr d 8) (low_bits d 8) ≡ d = word16_lem d (omega arith) in ground arith

-- The check words of two checksums differ.
check-differs :
    (chk chk' ctl : ℕ)
    → chk < 2 ^ 16
    → chk' < 2 ^ 16
    → ctl < 2 ^ 8
    → chk ≢ chk'
    → let d = data_check chk ctl in (word16 (shr d 8) (low_bits d 8) != data_check chk' ctl) ≡ true
check-differs chk chk' ctl h h' hc ne =
    let d = data_check chk ctl in
    let e : word16 (shr d 8) (low_bits d 8) ≡ d = word16_lem d (omega arith) in
    let back = old_check chk ctl h hc in
    let back' = old_check chk' ctl h' hc in
    let differ : d ≢ data_check chk' ctl = λ same. ne (
      sym back ∙ ap (λ x. bit_xor (sub_aaaa (word16 (shr x 8) (low_bits x 8))) ctl) same ∙ back') in
    rw e (ground arith)

seek_dle-stays : {c : Conn} (p : Port c) → p.prec_buf p.prec_start ≡ dle → seek_dle p ≡ (true, p)
unfolding seek_dle
seek_dle-stays p e = let f : (p.prec_buf p.prec_start != dle) ≡ false = rw e in rw f

module _ {c : Conn} {H : Type 0} where
  -- The link's buffer starts with a data packet: segment `seg` under the header of `k`, `ctl` and the
  -- checksum `chk`.
  pub record Whole (s : Link c H) (k ctl chk : ℕ) (seg rest : Bytes) : Type 0 where
    pub valid : IsValid s.port
    pub bytes : contents s.port ≡ data_header k ctl chk ++ (seg ++ rest)
    pub size : length seg ≡ packlen k
    pub k_pos : 0 < k
    pub k_lt : k < 9
    pub not_control : control_tt ctl ≢ control
    pub not_altchan : control_tt ctl ≢ altchan

  -- With the checksum of the segment.
  abbrev pub Arrived : Link c H → ℕ → ℕ → Bytes → Bytes → Type 0
  Arrived s k ctl seg rest = Whole s k ctl (checksum seg) seg rest

  starts :
      {s : Link c H} {k ctl chk : ℕ} {seg rest : Bytes}
      → Whole s k ctl chk seg rest
      → s.port.prec_buf s.port.prec_start ≡ dle
  starts {s} {k} {ctl} {chk} {seg} {rest} a =
      ap (head_or 0)
        (window-split s.port.prec_buf s.port.prec_start (used s.port) (data_header k ctl chk)
          (seg ++ rest) a.valid.start_in a.bytes).0

  -- Its header is a good one, and no control packet's.
  good_header :
      {s : Link c H} {k ctl chk : ℕ} {seg rest : Bytes}
      → Whole s k ctl chk seg rest
      → let h = header_of (data_header k ctl chk) in
        (bad_header h ≡ false)
        × ((h.k == kcontrol) ≡ false)
        × ((control_tt h.control == control) ≡ false)
  unfolding bad_header
  good_header {s} {k} {ctl} {chk} {seg} {rest} a =
      let i : k ≢ kcontrol = omega arith in
      let x : ltb k 1 ≡ false = ground arith in
      let y : ltb 9 k ≡ false = ground arith in rw (x, y) (ground arith)

  -- The header and the bytes behind it are all there.
  pub packet_fits :
      {s : Link c H} {k ctl chk : ℕ} {seg rest : Bytes}
      → Whole s k ctl chk seg rest
      → framelen + packlen k ≤ used s.port
  packet_fits {s} {k} {ctl} {chk} {seg} {rest} a =
      let l = length-window s.port.prec_buf s.port.prec_start (used s.port) in
      omega (
        arith,
        l,
        a.size,
        ap length a.bytes,
        length-append (data_header k ctl chk) (seg ++ rest),
        length-append seg rest,
      )

  enough :
      {s : Link c H} {k ctl chk : ℕ} {seg rest : Bytes}
      → Whole s k ctl chk seg rest
      → ltb (cinbuf s.port) (packlen k) ≡ false
  enough {s} {k} {ctl} {chk} {seg} {rest} a = ground (arith, packet_fits a)

  segment_check :
      {s : Link c H} {k ctl chk : ℕ} {seg rest : Bytes}
      → Whole s k ctl chk seg rest
      → block_check s.port (data_blocks s.port (packlen k)) ctl
        ≡ some (data_check (checksum seg) ctl)
  segment_check {s} {k} {ctl} {chk} {seg} {rest} a =
      let pos : 0 < length seg = rw a.size (packlen-bounds k a.k_lt).0 in
      let (b, e) = blocks-segment s.port k ctl chk seg rest a.valid a.bytes pos in
      rw (← a.size) (
        block_check-segment s.port (data_blocks s.port (length seg)) seg ctl (2 ^ (k + 2))
          b.first_pos (block_bytes-Split s.port (data_blocks s.port (length seg)) seg b.second_ok e)
          (omega (arith, a.size, packlen-bounds k a.k_lt)) (omega (arith, packlen-bounds k a.k_lt))
          (omega (arith, a.size, packlen-bounds k a.k_lt)))

  checked-read :
      (t : Trans c H) (do_acks return_control found : Bool) (h : Header) (b : Blocks)
      (want check : ℕ) (s : Link c H)
      → (word16 h.check_high h.check_low != check) ≡ false
      → checked t do_acks return_control found h b want check s
        ≡ accept t do_acks return_control found h b want s
  unfolding checked
  checked-read t do_acks return_control found h b want check s e = rw e

  checked-refuse :
      (t : Trans c H) (do_acks return_control found : Bool) (h : Header) (b : Blocks)
      (want check : ℕ) (s : Link c H)
      → (word16 h.check_high h.check_low != check) ≡ true
      → checked t do_acks return_control found h b want check s ≡ refuse_checksum found h s
  unfolding checked
  checked-refuse t do_acks return_control found h b want check s e = rw e

  -- A round up to the comparison of the check words.
  packet_round-Whole :
      (t : Trans c H) (do_acks return_control found : Bool) (s : Link c H) (k ctl chk : ℕ)
      (seg rest : Bytes) (out : Outcome (Link c H) Next)
      → Whole s k ctl chk seg rest
      → checked t do_acks return_control found
          (header_of (data_header k ctl chk))
          (data_blocks s.port (packlen k))
          (packlen k)
          (data_check (checksum seg) ctl)
          s
        ≡ out
      → packet_round t do_acks return_control found s ≡ out
  unfolding packet_round data_round
  packet_round-Whole t do_acks return_control found s k ctl chk seg rest out a e =
      let g = gather-header s.port k ctl chk (seg ++ rest) a.valid a.bytes in
      let (b, not_k, not_c) = good_header a in
      rw (g, b, not_k, not_c, enough a, segment_check a)
        (ap
            (λ ab.
              let h = header_of ab in
              checked t do_acks return_control found h (data_blocks s.port (packlen h.k))
                (packlen h.k) (data_check (checksum seg) ctl) s)
            g
          ∙ e)

  process_round-Whole :
      (t : Trans c H) (do_acks return_control found : Bool) (s : Link c H) (k ctl chk : ℕ)
      (seg rest : Bytes)
      → Whole s k ctl chk seg rest
      → process_round t do_acks return_control found s
        ≡ checked t do_acks return_control found
            (header_of (data_header k ctl chk))
            (data_blocks s.port (packlen k))
            (packlen k)
            (data_check (checksum seg) ctl)
            s
  unfolding process_round sought
  process_round-Whole t do_acks return_control found s k ctl chk seg rest a =
      ap (sought t do_acks return_control found s) (seek_dle-stays s.port (starts a))
      ∙ packet_round-Whole t do_acks return_control found s k ctl chk seg rest
          (checked t do_acks return_control found (header_of (data_header k ctl chk))
            (data_blocks s.port (packlen k)) (packlen k) (data_check (checksum seg) ctl) s)
          a refl

  -- Where the receive buffer's indices are in range and its contents start with a whole data
  -- packet (six header bytes for a size index from 1 to 8, a control byte that is neither a
  -- control packet's nor an alternate channel's, and the checksum of the segment that follows), a
  -- round of `fgprocess_data` refuses none of its tests: it goes on with the steps for an
  -- accepted packet, with that header and with pointers to its data, whatever the flags.
  pub process_round-Arrived :
      (t : Trans c H) (do_acks return_control found : Bool) (s : Link c H) (k ctl : ℕ)
      (seg rest : Bytes)
      → Arrived s k ctl seg rest
      → process_round t do_acks return_control found s
        ≡ accept t do_acks return_control found
            (header_of (data_header k ctl (checksum seg)))
            (data_blocks s.port (packlen k))
            (packlen k)
            s
  process_round-Arrived t do_acks return_control found s k ctl seg rest a =
      process_round-Whole t do_acks return_control found s k ctl (checksum seg) seg rest a
      ∙ checked-read t do_acks return_control found (header_of (data_header k ctl (checksum seg)))
          (data_blocks s.port (packlen k)) (packlen k) (data_check (checksum seg) ctl) s
          (check-read (checksum seg) ctl)

  -- With another checksum, the branch for it is taken.
  pub process_round-refuse :
      (t : Trans c H) (do_acks return_control found : Bool) (s : Link c H) (k ctl chk : ℕ)
      (seg rest : Bytes)
      → Whole s k ctl chk seg rest
      → chk < 2 ^ 16
      → ctl < 2 ^ 8
      → chk ≢ checksum seg
      → process_round t do_acks return_control found s
        ≡ refuse_checksum found (header_of (data_header k ctl chk)) s
  process_round-refuse t do_acks return_control found s k ctl chk seg rest a hc hk ne =
      process_round-Whole t do_acks return_control found s k ctl chk seg rest a
      ∙ checked-refuse t do_acks return_control found (header_of (data_header k ctl chk))
          (data_blocks s.port (packlen k)) (packlen k) (data_check (checksum seg) ctl) s
          (check-differs chk (checksum seg) ctl hc (checksum-lt seg) hk ne)
