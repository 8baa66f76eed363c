-- ===== src/G/Resend/Adjust.antt =====
-- `zgadjust_ack`: the packet that it leaves is the one that `fgsenddata` would have made with the
-- new acknowledgement.
use taylor_uucp.Base.{
  ℕ, ◌+◌, ◌*◌, ◌/◌, ◌^◌, ◌≤◌, ◌<◌, ◌≡◌, refl, ap, ◌++◌, ◌∙◌, inl, inr, bit_xor, ◌==◌, Bool-cases,
  arith,
}
use taylor_uucp.Base.Bits.{bit_or_fields}
use taylor_uucp.Prot.{update}
use taylor_uucp.G.{
  low_bits, shr, control_yyy, word16, sub_aaaa, header_xor, packet_start, framelen, read_mem,
}
use taylor_uucp.G.Frame.{data_check, data_header, old_check, IsFramed, read_mem-IsFramed}
use taylor_uucp.G.Memory.{read_mem_congr}
use taylor_uucp.G.Resend.{with_ack, rewrite_ack, adjust_ack}

module _ {m : ℕ → ℕ} {z k ctl chk seq : ℕ} (f : IsFramed m z k ctl chk) (hc : chk < 2 ^ 16)
    (hk : ctl < 2 ^ 8) (hs : seq < 8) where
  with_ack_same : control_yyy ctl ≡ seq → with_ack ctl seq ≡ ctl
  with_ack_same e = omega (arith, bit_or_fields 3 (ctl / 2 ^ 3) seq (omega arith))

  -- Type and sequence number stay, and the last three bits are the acknowledgement.
  with_ack-sum : with_ack ctl seq ≡ ctl / 8 * 8 + seq
  with_ack-sum = omega (arith, bit_or_fields 3 (ctl / 2 ^ 3) seq (omega arith))

  rewrite_ack_check : bit_xor (sub_aaaa (word16 (m (z + 3)) (m (z + 2)))) (m (z + 4)) ≡ chk
  rewrite_ack_check = rw (f.byte_high, f.byte_low, f.byte_control) (old_check chk ctl hc hk)

  -- The four writes, whatever the values.
  abbrev put : ℕ → ℕ → ℕ → ℕ → ℕ → ℕ
  put ctl' lo hi x =
      update (update (update (update m (z + 4) ctl') (z + 2) lo) (z + 3) hi) (z + 5) x

  put_start : (ctl' lo hi x : ℕ) → z ≤ 2 → packet_start (put ctl' lo hi x) ≡ z
  unfolding packet_start
  put_start ctl' lo hi x h = ground (arith, f.start, f.byte_dle)

  put_bytes :
      (ctl' lo hi x : ℕ)
      → let p = put ctl' lo hi x in
        (p z ≡ m z)
        × (p (z + 1) ≡ m (z + 1))
        × (p (z + 2) ≡ lo)
        × (p (z + 3) ≡ hi)
        × (p (z + 4) ≡ ctl')
        × (p (z + 5) ≡ x)
  put_bytes ctl' lo hi x =
      (ground arith, ground arith, ground arith, ground arith, ground arith, ground arith)

  start-le : z ≤ 2
  unfolding packet_start
  start-le = ground (arith, f.start)

  rewrite_ack-IsFramed : IsFramed (rewrite_ack seq m z) z k (with_ack ctl seq) chk
  unfolding rewrite_ack
  rewrite_ack-IsFramed =
      let ctl' = with_ack ctl seq in
      let lo = low_bits (data_check chk ctl') 8 in
      let hi = shr (data_check chk ctl') 8 in
      let x = header_xor k lo hi ctl' in
      let b = put_bytes ctl' lo hi x in
      rw (rewrite_ack_check, f.byte_control, f.byte_k)
        (record {
          start = put_start ctl' lo hi x start-le;
          byte_dle = b.0 ∙ f.byte_dle;
          byte_k = b.1 ∙ f.byte_k;
          byte_low = b.2;
          byte_high = b.3;
          byte_control = b.4;
          byte_xor = b.5;
        })

  rewrite_ack_above : (j : ℕ) → z + framelen ≤ j → rewrite_ack seq m z j ≡ m j
  unfolding rewrite_ack
  rewrite_ack_above j h = ground arith

  adjust_ack-IsFramed :
      IsFramed (adjust_ack seq m) z k (with_ack ctl seq) chk
      × ((j : ℕ) → z + framelen ≤ j → adjust_ack seq m j ≡ m j)
  adjust_ack-IsFramed =
      unfold adjust_ack in
      rw f.start (elim (Bool-cases (control_yyy (m (z + 4)) == seq)) [
        | inl e ↦ rw (e, with_ack_same (ground (arith, f.byte_control))) (f, λ j h. refl)
        | inr ne ↦ rw ne (rewrite_ack-IsFramed, rewrite_ack_above)
      ])

  -- Where a send buffer holds at `z` the header with size index `k`, control byte `ctl` and the
  -- checksum `chk`, `zgadjust_ack` leaves at the same offset the header of the control byte whose
  -- last three bits are `seq` and whose other bits are those of `ctl`, check word and check byte
  -- included, and the `n` bytes behind the header as they were, for any `n`. The conditions are
  -- that checksum, control byte and acknowledgement have 16, 8 and 3 bits.
  pub adjust_ack_lem :
      (n : ℕ)
      → (packet_start (adjust_ack seq m) ≡ z)
        × (read_mem (adjust_ack seq m) z (framelen + n)
            ≡ data_header k (ctl / 8 * 8 + seq) chk ++ read_mem m (z + framelen) n)
  adjust_ack_lem n =
      let (g, above) = adjust_ack-IsFramed in
      (
        g.start,
        read_mem-IsFramed n g
            ∙ ap (λ w. data_header k (with_ack ctl seq) chk ++ w)
                (read_mem_congr (adjust_ack seq m) m (z + framelen) n (λ j a b. above j a))
            ∙ ap (λ y. data_header k y chk ++ read_mem m (z + framelen) n) with_ack-sum,
      )
