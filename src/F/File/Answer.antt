-- ===== src/F/File/Answer.antt =====
-- The end of a file: its checksum is read back, and a damaged file is asked for again a bounded number
-- of times.
use taylor_uucp.Base.{
  ℕ, ◌+◌, ◌/◌, ◌%◌, ◌^◌, ◌≤◌, ◌<◌, ◌≡◌, refl, ap, ◌∙◌, true, false, ◌⊎◌, inl, inr, none, some, List,
  [], ◌∷◌, ◌++◌, Bytes, AllBytes, ltb, ◌!=◌, Bool-cases, Option-cases, arith,
}
use taylor_uucp.Base.Outcome.{done, ◌then◌, Ends}
use taylor_uucp.Prot.{Conn}
use taylor_uucp.F.{Session, encode, sum_check}
use taylor_uucp.F.Decode.{Scan}
use taylor_uucp.F.File.{
  Files, Transfer, send_ack, no_handler, hex_digit, hex4, hex_value, read_checksum, ask_again,
  got_checksum,
}
use taylor_uucp.F.RoundTrip.{scans, concat, decode-encode}

hex_value-hex_digit : (d : ℕ) → d < 16 → hex_value (hex_digit d) ≡ some d
unfolding hex_value hex_digit
hex_value-hex_digit d h = elim (Bool-cases (ltb d 10)) [
  | inl t ↦ rw t (ground arith)
  | inr t ↦ rw t (ground arith)
]

-- The four characters stand for the number.
read_checksum-hex4 : (n : ℕ) → n < 2 ^ 16 → read_checksum (hex4 n ++ 0 ∷ []) ≡ some n
unfolding read_checksum hex4
read_checksum-hex4 n h =
    let a = hex_value-hex_digit (n / 2 ^ 12 % 16) (omega arith) in
    let b = hex_value-hex_digit (n / 2 ^ 8 % 16) (omega arith) in
    let c = hex_value-hex_digit (n / 2 ^ 4 % 16) (omega arith) in
    let d = hex_value-hex_digit (n % 16) (omega arith) in rw (a, b, c, d) (ap some (omega arith))

module _ {c : Conn} {H : Type 0} (w : Files c H) where
  -- For bytes `z` that were encoded by `ffsenddata` from the initial checksum and decoded in any
  -- division into reads, where the receiver's checksum is that of the decoding, the four
  -- hexadecimal characters that `fffile` sends for the sender's checksum make `ffawait_cksum` put
  -- `ffsend_ack` in the send queue with the answer G, with nothing else changed in the session
  -- before that.
  pub got_checksum_accepts :
      (z : Bytes) (reads : List Bytes) (q : Transfer) (s : Session c H)
      → AllBytes z
      → concat reads ≡ encode z
      → s.check ≡ (scans 0 0xffff reads).check
      → let q' = record q { bsend = 71; sendfn = send_ack; recfn = no_handler } in
        got_checksum w (hex4 (sum_check 0xffff z % 2 ^ 16) ++ 0 ∷ []) q s
        ≡ (w.queue_send q' s then λ _ s'. done q' s')
  unfolding got_checksum
  got_checksum_accepts z reads q s h e k =
      let n = sum_check 0xffff z % 2 ^ 16 in
      let r : read_checksum (hex4 n ++ 0 ∷ []) ≡ some n = read_checksum-hex4 n (omega arith) in
      let l : s.check ≡ sum_check 0xffff z = k ∙ ap Scan.check (decode-encode z reads 0xffff h e) in
      let t : (n != s.check % 2 ^ 16) ≡ false = rw l (ground arith) in rw (got_checksum, r, t)

  -- With a checksum that is not the expected one, `ffawait_cksum` counts a retry and then either
  -- answers R, only if the count is within the limit and with checksum, special character and
  -- file mode set up for the file to come again, or answers Q, only if the count is above the
  -- limit. It returns FALSE only if the file is not open or cannot be truncated.
  pub ask_again_bounded :
      (q : Transfer) (s : Session c H)
      → Ends
          (λ q' s'.
            (s'.retries ≡ s.retries + 1)
            × ((q'.bsend ≡ 82)
                  × (s'.retries ≤ s.max_retries)
                  × (s'.check ≡ 0xffff)
                  × (s'.special ≡ 0)
                  × (s'.file ≡ true)
                ⊎ (q'.bsend ≡ 81) × (s.max_retries < s'.retries)))
          (λ s'. (w.is_open s.host ≡ false) ⊎ (w.truncate s.host ≡ none))
          (ask_again w q s)
  unfolding ask_again
  ask_again_bounded q s = elim (Bool-cases (w.is_open s.host)) [
    | inl o ↦
        rw (o, Ends)
          (elim (Bool-cases (ltb s.max_retries (s.retries + 1))) [
            | inl t ↦ rw (t, Ends) (refl, inr (refl, ground arith))
            | inr t ↦
                rw (t, Ends)
                  (elim (Option-cases (w.truncate s.host)) [
                    | inl e ↦ rw (e, Ends) (inr e)
                    | inr (h, e) ↦ rw (e, Ends) (refl, inl (refl, ground arith, refl, refl, refl))
                  ])
          ])
    | inr o ↦ rw (o, Ends) (inl o)
  ]
