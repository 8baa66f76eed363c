-- ===== src/F/Decode/Runs.antt =====
-- The loop of `ffprocess_data` over file data: no run of bytes, one, or two.
use taylor_uucp.Base.{
  ℕ, suc, ◌+◌, ◌-◌, ◌%◌, ◌<◌, ◌≡◌, ◌≢◌, refl, sym, ap, ◌∙◌, Bool, true, false, [], ◌∷◌, ◌++◌,
  append-nil, append_assoc, Bytes, length, length-append, ltb, ◌==◌, if◌then◌else◌, arith,
}
use taylor_uucp.Base.Outcome.{done, ◌then◌, Ends, Empty}
use taylor_uucp.Prot.{Conn, crecbuflen}
use taylor_uucp.G.{read_mem}
use taylor_uucp.G.Memory.{length-read_mem}
use taylor_uucp.F.{Session}
use taylor_uucp.F.Decode.{Scan, scan, GotData, run_length, pass, start_at, file_data}
use taylor_uucp.F.Append.{prefix, scan-append, scan-ended, scan-used}

module _ {c : Conn} where
  -- A caller that keeps what it is given.
  abbrev pub keep : GotData c Bytes
  keep z s = done false (record s { host = s.host ++ z })

  pass-keep :
      (z : Bytes) (s : Session c Bytes)
      → pass keep false z s ≡ done false (record s { host = s.host ++ z })
  unfolding pass
  pass-keep [] s = ap (λ h. done false (record s { host = h })) (sym (append-nil s.host))
  pass-keep (b ∷ z) s = refl

  -- The run of bytes that a round of the loop decodes, and what the round leaves.
  abbrev pub run : Session c Bytes → Bytes
  run s = read_mem s.port.prec_buf s.port.prec_start (run_length s.port)

  abbrev next : Scan → Session c Bytes → Session c Bytes
  next r s = start_at (s.port.prec_start + r.used) (record s {
    special = r.special_last;
    rec_data = s.rec_data + length r.out;
    host = s.host ++ r.out;
    rec_bytes = s.rec_bytes + r.used;
  })

  pub file_data-run :
      (f chk : ℕ) (s : Session c Bytes)
      → s.port.prec_start ≢ s.port.prec_end
      → let r = scan s.special chk (run s) in
        r.ended ≡ false
        → file_data (suc f) keep false chk s ≡ file_data f keep false r.check (next r s)
  unfolding file_data
  file_data-run f chk s ne e =
      let t : (s.port.prec_start == s.port.prec_end) ≡ false = ground arith in
      let r = scan s.special chk (run s) in
      let s₁ = record s { special = r.special_last; rec_data = s.rec_data + length r.out } in
      rw (file_data, t, e)
        (ap
          (λ o. o then λ x s₂. file_data f keep x r.check (
            start_at (s.port.prec_start + r.used)
              (record s₂ { rec_bytes = s₂.rec_bytes + r.used })))
          (pass-keep r.out s₁))

  file_data-end :
      (f chk : ℕ) (s : Session c Bytes)
      → s.port.prec_start ≡ s.port.prec_end
      → file_data (suc f) keep false chk s
        ≡ done (false, if s.special == 126 then 6 else 7) (record s { check = chk })
  unfolding file_data
  file_data-end f chk s e =
      let t : (s.port.prec_start == s.port.prec_end) ≡ true = ground arith in rw (file_data, t)

  -- What the decoding of `w` gives has been passed on or kept, and nothing is left in the buffer.
  pub record Decoded (s : Session c Bytes) (w : Bytes) (v : Bool × ℕ) (s' : Session c Bytes)
      : Type 0 where
    pub value : v ≡ (false, if (scan s.special s.check w).special_last == 126 then 6 else 7)
    pub given : s'.host ≡ s.host ++ (scan s.special s.check w).out
    pub check : s'.check ≡ (scan s.special s.check w).check
    pub special : s'.special ≡ (scan s.special s.check w).special_last
    pub rec_data : s'.rec_data ≡ s.rec_data + length (scan s.special s.check w).out
    pub rec_bytes : s'.rec_bytes ≡ s.rec_bytes + length w
    pub left : s'.port.prec_start ≡ s'.port.prec_end
    pub file : s'.file ≡ s.file

  -- Nothing, one run, and two runs.
  pub no_run :
      (s : Session c Bytes)
      → s.port.prec_start ≡ s.port.prec_end
      → Ends (Decoded s []) (λ _. Empty) (file_data 3 keep false s.check s)
  no_run s e =
      rw (file_data-end 2 s.check s e, Ends)
        (unfold scan in
          record {
            value = refl;
            given = sym (append-nil s.host);
            check = refl;
            special = refl;
            rec_data = omega arith;
            rec_bytes = omega arith;
            left = e;
            file = refl;
          })

  pub one_run :
      (s : Session c Bytes) (w : Bytes)
      → (scan s.special s.check w).ended ≡ false
      → s.port.prec_start ≢ s.port.prec_end
      → run s ≡ w
      → (s.port.prec_start + length w) % crecbuflen ≡ s.port.prec_end
      → Ends (Decoded s w) (λ _. Empty) (file_data 3 keep false s.check s)
  one_run s w ne_end ne e l =
      let r = scan s.special s.check w in
      let same : scan s.special s.check (run s) ≡ r = ap (scan s.special s.check) e in
      let u : r.used ≡ length w = scan-used w s.special s.check ne_end in
      let end : (next r s).port.prec_start ≡ s.port.prec_end = omega arith in
      let o : file_data 3 keep false s.check s
          ≡ done (false, if r.special_last == 126 then 6 else 7)
              (record (next r s) { check = r.check }) =
        file_data-run 2 s.check s ne (ap Scan.ended same ∙ ne_end)
        ∙ ap (λ r. file_data 2 keep false r.check (next r s)) same
        ∙ file_data-end 1 r.check (next r s) end in
      rw (o, Ends)
        (record {
          value = refl;
          given = refl;
          check = refl;
          special = refl;
          rec_data = refl;
          rec_bytes = omega arith;
          left = end;
          file = refl;
        })

  -- The bytes from a start on, as the second run has them.
  run_from : Session c Bytes → ℕ → Bytes
  run_from s i =
      read_mem s.port.prec_buf i
        (if ltb s.port.prec_end i then crecbuflen - i else s.port.prec_end - i)

  pub two_runs :
      (s : Session c Bytes) (w : Bytes)
      → (scan s.special s.check w).ended ≡ false
      → s.port.prec_start ≢ s.port.prec_end
      → 0 < s.port.prec_end
      → s.port.prec_end < crecbuflen
      → s.port.prec_start + length (run s) ≡ crecbuflen
      → run s ++ read_mem s.port.prec_buf 0 s.port.prec_end ≡ w
      → Ends (Decoded s w) (λ _. Empty) (file_data 3 keep false s.check s)
  unfolding run_from
  two_runs s w ne_end ne pos lt l e =
      let a = run s in
      let b = read_mem s.port.prec_buf 0 s.port.prec_end in
      let r = scan s.special s.check a in
      let r₂ = scan r.special_last r.check b in
      let joint : scan s.special s.check (a ++ b) ≡ scan s.special s.check w =
        ap (scan s.special s.check) e in
      let open_a : r.ended ≡ false =
        scan-ended a b s.special s.check (ap Scan.ended joint ∙ ne_end) in
      let x : prefix r.used r.out r₂ ≡ scan s.special s.check w =
        sym (scan-append a b s.special s.check open_a) ∙ joint in
      let used_a : r.used ≡ length a = scan-used a s.special s.check open_a in
      let used_w : (scan s.special s.check w).used ≡ length w =
        scan-used w s.special s.check ne_end in
      let used_b : r₂.used ≡ s.port.prec_end =
        scan-used b r.special_last r.check (ap Scan.ended x ∙ ne_end)
        ∙ length-read_mem s.port.prec_buf 0 s.port.prec_end in
      let s₁ = next r s in
      let start₁ : s₁.port.prec_start ≡ 0 = omega arith in
      let none_past : ltb s.port.prec_end 0 ≡ false = ground arith in
      let run₁ : run s₁ ≡ b =
        ap (run_from s) start₁ ∙ rw none_past (ap (read_mem s.port.prec_buf 0) (omega arith)) in
      let second : scan s₁.special r.check (run s₁) ≡ r₂ = ap (scan r.special_last r.check) run₁ in
      let end₂ : (next r₂ s₁).port.prec_start ≡ s.port.prec_end = omega arith in
      let o : file_data 3 keep false s.check s
          ≡ done (false, if r₂.special_last == 126 then 6 else 7)
              (record (next r₂ s₁) { check = r₂.check }) =
        file_data-run 2 s.check s ne open_a
        ∙ file_data-run 1 r.check s₁ (λ eq. absurd (omega arith))
            (ap Scan.ended second ∙ ap Scan.ended x ∙ ne_end)
        ∙ ap (λ y. file_data 1 keep false y.check (next y s₁)) second
        ∙ file_data-end 0 r₂.check (next r₂ s₁) end₂ in
      rw (o, Ends)
        (record {
          value = ap (λ y. (false, if y.special_last == 126 then 6 else 7)) x;
          given = append_assoc s.host r.out r₂.out ∙ ap (λ y. s.host ++ y) (ap Scan.out x);
          check = ap Scan.check x;
          special = ap Scan.special_last x;
          rec_data = omega (arith, ap length (ap Scan.out x), length-append r.out r₂.out);
          rec_bytes = omega (arith, ap Scan.used x);
          left = end₂;
          file = refl;
        })
