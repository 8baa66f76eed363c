-- ===== src/F/Decode/Ring.antt =====
-- File data of the 'f' protocol in the receive buffer, in one run or two.
use taylor_uucp.Base.{
  ℕ, Bool, [], ◌+◌, ◌-◌, ◌≡◌, ◌≢◌, sym, ap, ap₂, ◌∙◌, true, false, not, inl, inr, ◌++◌, append-nil,
  Bytes, AllBytes, length, ltb, ◌==◌, if◌then◌else◌, Bool-cases, arith,
}
use taylor_uucp.Base.Outcome.{Ends, Ends-map, Empty}
use taylor_uucp.Prot.{Conn, crecbuflen}
use taylor_uucp.Prot.Room.{window, used, contents, IsValid, length-window}
use taylor_uucp.G.{read_mem}
use taylor_uucp.G.Memory.{length-read_mem}
use taylor_uucp.G.Receive.Parts.Ring.{window-add, window-read_mem}
use taylor_uucp.F.{Session, encode, sum_check}
use taylor_uucp.F.RoundTrip.{whole, scan-whole}
use mathlib.Core.Path.{subst}
use taylor_uucp.F.Decode.{Scan, scan, file_data, command_data, process_bytes}
use taylor_uucp.F.Decode.Runs.{keep, Decoded, no_run, one_run, two_runs}

module _ {c : Conn} where
  file_data-Decoded :
      (s : Session c Bytes) (w : Bytes)
      → IsValid s.port
      → (scan s.special s.check w).ended ≡ false
      → contents s.port ≡ w
      → Ends (Decoded s w) (λ _. Empty) (file_data 3 keep false s.check s)
  file_data-Decoded s w v ne_end e =
      let n : used s.port ≡ length w =
        sym (length-window s.port.prec_buf s.port.prec_start (used s.port)) ∙ ap length e in
      elim (Bool-cases (s.port.prec_start == s.port.prec_end)) [
        | inl t ↦
            let same : s.port.prec_start ≡ s.port.prec_end = ground arith in
            let u : used s.port ≡ 0 = omega arith in
            let nothing : [] ≡ w = ap (window s.port.prec_buf s.port.prec_start) (sym u) ∙ e in
            subst (λ y. Ends (Decoded s y) (λ _. Empty) (file_data 3 keep false s.check s)) nothing
              (no_run s same)
        | inr t ↦
            let ne : s.port.prec_start ≢ s.port.prec_end = ground arith in
            elim (Bool-cases (ltb s.port.prec_end s.port.prec_start)) [
              | inr q ↦
                  let u : used s.port ≡ s.port.prec_end - s.port.prec_start = ground arith in
                  one_run s w ne_end ne
                    (rw q (
                      sym (
                        window-read_mem s.port.prec_buf s.port.prec_start
                          (s.port.prec_end - s.port.prec_start) (omega arith))
                      ∙ ap (window s.port.prec_buf s.port.prec_start) (sym u)
                      ∙ e))
                    (ground arith)
              | inl q ↦
                  let k = crecbuflen - s.port.prec_start in
                  let u : used s.port ≡ k + s.port.prec_end = ground arith in
                  let split : window s.port.prec_buf s.port.prec_start (used s.port)
                      ≡ read_mem s.port.prec_buf s.port.prec_start k
                        ++ read_mem s.port.prec_buf 0 s.port.prec_end =
                    ap (window s.port.prec_buf s.port.prec_start) u
                    ∙ window-add s.port.prec_buf s.port.prec_start k s.port.prec_end 0 v.start_in
                        (omega arith)
                    ∙ ap₂ ◌++◌ (window-read_mem s.port.prec_buf s.port.prec_start k (omega arith))
                        (window-read_mem s.port.prec_buf 0 s.port.prec_end (omega arith)) in
                  elim (Bool-cases (s.port.prec_end == 0)) [
                    | inl zero_end ↦
                        let e₀ : s.port.prec_end ≡ 0 = ground arith in
                        one_run s w ne_end ne
                          (rw q (
                            sym (append-nil _)
                            ∙ ap
                                (λ m.
                                  read_mem s.port.prec_buf s.port.prec_start k
                                  ++ read_mem s.port.prec_buf 0 m)
                                (sym e₀)
                            ∙ sym split
                            ∙ e))
                          (omega arith)
                    | inr some_end ↦
                        two_runs s w ne_end ne (ground arith) v.end_in
                          (rw q (
                            omega (
                              arith,
                              length-read_mem s.port.prec_buf s.port.prec_start k,
                              v.start_in,
                            )))
                          (rw q (sym split ∙ e))
                  ]
            ]
      ]

  pub process_bytes-Decoded :
      (s : Session c Bytes) (w : Bytes)
      → IsValid s.port
      → s.file ≡ true
      → (scan s.special s.check w).ended ≡ false
      → contents s.port ≡ w
      → Ends (Decoded s w) (λ _. Empty) (process_bytes 3 keep s)
  unfolding process_bytes
  process_bytes-Decoded s w v file ne_end e =
      let o : process_bytes 3 keep s ≡ file_data 3 keep false s.check s =
        ap (λ f. if not f then command_data 3 keep false s else file_data 3 keep false s.check s)
          file in
      rw (o, Ends) (file_data-Decoded s w v ne_end e)

  -- The file's bytes have been passed on, and nothing is left in the buffer.
  pub record Taken (s : Session c Bytes) (z : Bytes) (r : Bool × ℕ) (s' : Session c Bytes)
      : Type 0 where
    pub value : r ≡ (false, 7)
    pub given : s'.host ≡ s.host ++ z
    pub check : s'.check ≡ sum_check s.check z
    pub special : s'.special ≡ 0
    pub rec_data : s'.rec_data ≡ s.rec_data + length z
    pub rec_bytes : s'.rec_bytes ≡ s.rec_bytes + length (encode z)
    pub left : s'.port.prec_start ≡ s'.port.prec_end

  -- While a file is received, no special character is left over from before, the receive buffer's
  -- indices are in range and its contents are what `ffsenddata` sends for the bytes `z`, wherever
  -- they lie in the array: then `ffprocess_data` returns TRUE within three rounds, without an
  -- exit and asking for seven bytes. `fgot_data`, taken to be a function that keeps what it is
  -- given, has been given `z` in all; the checksum is the sender's, no special character is left
  -- over, the counts have grown by the bytes of the file and the characters read, and the buffer
  -- is empty.
  pub process_bytes-encode :
      (s : Session c Bytes) (z : Bytes)
      → IsValid s.port
      → AllBytes z
      → s.file ≡ true
      → s.special ≡ 0
      → contents s.port ≡ encode z
      → Ends (Taken s z) (λ _. Empty) (process_bytes 3 keep s)
  process_bytes-encode s z v h file sp e =
      let w : scan s.special s.check (encode z)
          ≡ whole (sum_check s.check z) z (length (encode z)) =
        ap (λ k. scan k s.check (encode z)) sp ∙ scan-whole z s.check h in
      Ends-map (Decoded s (encode z)) (Taken s z) (λ _. Empty) (process_bytes 3 keep s)
        (λ v s' d. record {
          value = d.value ∙ ap (λ r. (false, if r.special_last == 126 then 6 else 7)) w;
          given = d.given ∙ ap (λ r. s.host ++ r.out) w;
          check = d.check ∙ ap Scan.check w;
          special = d.special ∙ ap Scan.special_last w;
          rec_data = d.rec_data ∙ ap (λ r. s.rec_data + length r.out) w;
          rec_bytes = d.rec_bytes;
          left = d.left;
        })
        (process_bytes-Decoded s (encode z) v file (ap Scan.ended w) e)
