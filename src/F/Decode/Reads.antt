-- ===== src/F/Decode/Reads.antt =====
-- A file of the 'f' protocol that arrives in several reads, with a call of `ffprocess_data` after
-- each (protf.c, `ffwait`).
use taylor_uucp.Base.{
  ℕ, ◌+◌, ◌≡◌, refl, sym, ap, ap₂, ◌∙◌, Bool, true, false, List, [], ◌∷◌, ◌++◌, append-nil,
  append_assoc, Bytes, AllBytes, All, length, length-append, arith,
}
use taylor_uucp.Base.Outcome.{Outcome, done, ◌then◌, Ends, Ends-then, Ends-map, Empty}
use taylor_uucp.Prot.{Conn, Port}
use taylor_uucp.Prot.Room.{contents, IsValid}
use taylor_uucp.F.{Session, encode, sum_check}
use taylor_uucp.F.Append.{scan-append, scan-ended}
use taylor_uucp.F.Decode.{Scan, scan, process_bytes}
use taylor_uucp.F.Decode.Ring.{process_bytes-Decoded}
use taylor_uucp.F.Decode.Runs.{keep, Decoded}
use taylor_uucp.F.RoundTrip.{whole, scan-whole}

module _ {c : Conn} where
  -- What the reads have left in the buffer, one after the other.
  abbrev pub all_contents : List (Port c) → Bytes
  all_contents [] = []
  all_contents (p ∷ ps) = contents p ++ all_contents ps

  -- A call after each read, which changes the port only.
  abbrev pub process_reads : List (Port c) → Session c Bytes → Outcome (Session c Bytes) (Unit {0})
  process_reads [] s = done tt s
  process_reads (p ∷ ps) s =
      process_bytes 3 keep (record s { port = p }) then λ _ s'. process_reads ps s'

  -- What has come out of `w`.
  record Read (s : Session c Bytes) (w : Bytes) (s' : Session c Bytes) : Type 0 where
    pub given : s'.host ≡ s.host ++ (scan s.special s.check w).out
    pub check : s'.check ≡ (scan s.special s.check w).check
    pub special : s'.special ≡ (scan s.special s.check w).special_last
    pub rec_data : s'.rec_data ≡ s.rec_data + length (scan s.special s.check w).out
    pub rec_bytes : s'.rec_bytes ≡ s.rec_bytes + length w

  Read-nil : (s : Session c Bytes) → Read s [] s
  Read-nil s =
      unfold scan in
      record {
        given = sym (append-nil s.host);
        check = refl;
        special = refl;
        rec_data = omega arith;
        rec_bytes = omega arith;
      }

  -- One call and the others.
  Read-append :
      (s s₁ s₂ : Session c Bytes) (a b : Bytes) (v : Bool × ℕ)
      → (scan s.special s.check (a ++ b)).ended ≡ false
      → Decoded s a v s₁
      → Read s₁ b s₂
      → Read s (a ++ b) s₂
  Read-append s s₁ s₂ a b v h d t =
      let r = scan s.special s.check a in
      let j = scan-append a b s.special s.check (scan-ended a b s.special s.check h) in
      let e : scan s₁.special s₁.check b ≡ scan r.special_last r.check b =
        ap₂ (λ k x. scan k x b) d.special d.check in
      let r₂ = scan r.special_last r.check b in
      record {
        given =
            t.given
            ∙ ap₂ ◌++◌ d.given (ap Scan.out e)
            ∙ append_assoc s.host r.out r₂.out
            ∙ ap (λ x. s.host ++ x.out) (sym j);
        check = t.check ∙ ap Scan.check e ∙ ap Scan.check (sym j);
        special = t.special ∙ ap Scan.special_last e ∙ ap Scan.special_last (sym j);
        rec_data = omega (
          arith,
          t.rec_data,
          d.rec_data,
          ap (λ x. length x.out) e,
          ap (λ x. length x.out) j,
          length-append r.out r₂.out,
        );
        rec_bytes = omega (arith, t.rec_bytes, d.rec_bytes, length-append a b);
      }

  process_reads-Read :
      (ps : List (Port c)) (s : Session c Bytes)
      → All IsValid ps
      → s.file ≡ true
      → (scan s.special s.check (all_contents ps)).ended ≡ false
      → Ends (λ _ s'. Read s (all_contents ps) s') (λ _. Empty) (process_reads ps s)
  process_reads-Read [] s v file h = Read-nil s
  process_reads-Read (p ∷ ps) s (v, vs) file h =
      let a = contents p in
      let b = all_contents ps in
      let s₀ = record s { port = p } in
      let h_a = scan-ended a b s.special s.check h in
      let j = scan-append a b s.special s.check h_a in
      Ends-then (Decoded s₀ a) (λ _ s'. Read s (a ++ b) s') (λ _. Empty) (process_bytes 3 keep s₀)
        (λ _ s'. process_reads ps s') (process_bytes-Decoded s₀ a v file h_a refl)
        (λ x s₁ d.
          let e : scan s₁.special s₁.check b
              ≡ scan (scan s.special s.check a).special_last (scan s.special s.check a).check b =
            ap₂ (λ k x. scan k x b) d.special d.check in
          Ends-map (λ _ s'. Read s₁ b s') (λ _ s'. Read s (a ++ b) s') (λ _. Empty)
            (process_reads ps s₁)
            (λ _ s' t.
              let r = Read-append s₀ s₁ s' a b x h d t in
              record {
                given = r.given;
                check = r.check;
                special = r.special;
                rec_data = r.rec_data;
                rec_bytes = r.rec_bytes;
              })
            (process_reads-Read ps s₁ vs (d.file ∙ file)
              (ap Scan.ended e ∙ ap Scan.ended (sym j) ∙ h)))

  -- While a file is received and no special character is left over from before, let
  -- `ffprocess_data` be called after each of any number of reads, with the receive buffer's
  -- indices in range, where what the reads have left in the buffer, one after the other, is what
  -- `ffsenddata` sends for the bytes `z`, divided anywhere, also between the two characters of a
  -- byte. Then every call returns TRUE within three rounds. `fgot_data`, taken to be a function
  -- that keeps what it is given, has been given `z` in all; the checksum is the sender's, no
  -- special character is left over, and the counts have grown by the bytes of the file and the
  -- characters read.
  pub process_reads-encode :
      (ps : List (Port c)) (s : Session c Bytes) (z : Bytes)
      → All IsValid ps
      → AllBytes z
      → s.file ≡ true
      → s.special ≡ 0
      → all_contents ps ≡ encode z
      → Ends
          (λ _ s'.
            (s'.host ≡ s.host ++ z)
            × (s'.check ≡ sum_check s.check z)
            × (s'.special ≡ 0)
            × (s'.rec_data ≡ s.rec_data + length z)
            × (s'.rec_bytes ≡ s.rec_bytes + length (encode z)))
          (λ _. Empty)
          (process_reads ps s)
  process_reads-encode ps s z v h file sp e =
      let w : scan s.special s.check (all_contents ps)
          ≡ whole (sum_check s.check z) z (length (encode z)) =
        ap₂ (λ k a. scan k s.check a) sp e ∙ scan-whole z s.check h in
      Ends-map (λ _ s'. Read s (all_contents ps) s')
        (λ _ s'.
          (s'.host ≡ s.host ++ z)
          × (s'.check ≡ sum_check s.check z)
          × (s'.special ≡ 0)
          × (s'.rec_data ≡ s.rec_data + length z)
          × (s'.rec_bytes ≡ s.rec_bytes + length (encode z)))
        (λ _. Empty) (process_reads ps s)
        (λ _ s' r. (
          r.given ∙ ap (λ x. s.host ++ x.out) w,
          r.check ∙ ap Scan.check w,
          r.special ∙ ap Scan.special_last w,
          r.rec_data ∙ ap (λ x. s.rec_data + length x.out) w,
          r.rec_bytes ∙ ap (λ y. s.rec_bytes + length y) e,
        ))
        (process_reads-Read ps s v file (ap Scan.ended w))
