-- ===== src/E/RoundTrip.antt =====
-- A file that `fefile` announces and `fesenddata` sends, read by `feprocess_data`.
use taylor_uucp.Base.{
  ℕ, zero, suc, ◌+◌, ◌-◌, ◌^◌, ◌≤◌, ◌<◌, ◌≡◌, refl, sym, ap, ◌∙◌, Bool, true, false, ◌++◌, Bytes,
  length, length-append, length-replicate, replicate, take, drop, take-append, drop-append, ltb,
  leb, arith,
}
use mathlib.Core.Path.{subst}
use taylor_uucp.Base.Outcome.{Outcome}
use taylor_uucp.Command.Number.{pos, minus_one}
use taylor_uucp.Prot.{Conn}
use taylor_uucp.Prot.Queue.{taken, taken-contents, pieces-take}
use taylor_uucp.Prot.Room.{used, contents, IsValid}
use taylor_uucp.E.{
  Session, announce, ceframelen, header_bytes, at_end, file_rounds, process_file, process_data,
}
use taylor_uucp.E.Number.{decimal, strtol_decimal}
use taylor_uucp.E.Number.Decimal.{length-decimal, strtol_decimal-decimal}
use taylor_uucp.E.File.{
  keeper, ends_file, Reads, missing_of, length-contents, rounds-Reads, at_end_zero, at_end-more,
}

pub length-announce : (n : ℕ) → length (announce (pos n)) ≡ ceframelen
length-announce n =
    let z = decimal (pos n) in
    length-append z (replicate (ceframelen - length z) 0)
    ∙ omega (arith, length-replicate {A = ℕ} (ceframelen - length z) 0, length-decimal n)

strtol-announce : (n : ℕ) → n < 2 ^ 63 → strtol_decimal (announce (pos n)) ≡ pos n
strtol-announce n h =
    let z = decimal (pos n) in
    let e : ceframelen - length z ≡ suc (ceframelen - length z - 1) =
      omega (arith, length-decimal n) in
    ap (λ k. strtol_decimal (z ++ replicate k 0)) e
    ∙ strtol_decimal-decimal n (replicate (ceframelen - length z - 1) 0) h

module _ {c : Conn} where
  pub file_rounds-Reads :
      (n : ℕ) (s : Session c Bytes)
      → IsValid s.port
      → 0 < n
      → s.file ≡ true
      → Reads s.host s.port.net n
          (contents s.port)
          (file_rounds (keeper ends_file) (used s.port) false (missing_of s n))
  unfolding file_rounds
  file_rounds-Reads n s v h file =
      let e : used s.port + 1 ≡ suc (used s.port) = omega arith in
      rw e (rounds-Reads (used s.port) n s refl v h file)

  -- What waits behind the size of the file.
  at_end-Reads :
      (n : ℕ) (s : Session c Bytes)
      → IsValid s.port
      → s.file ≡ true
      → Reads s.host s.port.net n (contents s.port) (
          at_end
            (keeper ends_file)
            (file_rounds (keeper ends_file) (used s.port))
            false
            (missing_of s n))
  at_end-Reads zero s v file =
      let k =
        at_end_zero (file_rounds (keeper ends_file) (used s.port)) false (missing_of s 0) refl in
      let t : leb 0 (length (contents s.port)) ≡ true = ground arith in
      rw (k, t)
        (
          refl,
          record {
            valid = v;
            handed = refl;
            left = refl;
            missing = refl;
            same_net = refl;
            during = file;
          },
        )
  at_end-Reads (suc n) s v file =
      rw
        (at_end-more (file_rounds (keeper ends_file) (used s.port)) false (suc n)
          (missing_of s (suc n)) refl (omega arith))
        (file_rounds-Reads (suc n) s v (omega arith) file)

  -- Once the size is known.
  process_data-known :
      (n : ℕ) (s : Session c Bytes)
      → IsValid s.port
      → 0 < n
      → Reads s.host s.port.net n
          (contents s.port)
          (process_data (keeper ends_file) (record s { file = true; bytes = pos n }))
  unfolding process_data process_file
  process_data-known n s v h = file_rounds-Reads n (record s { file = true }) v h refl

  pub process_data-continues :
      (n : ℕ) (s : Session c Bytes)
      → IsValid s.port
      → 0 < n
      → s.file ≡ true
      → s.bytes ≡ pos n
      → Reads s.host s.port.net n (contents s.port) (process_data (keeper ends_file) s)
  process_data-continues n s v h file e =
      let R = λ (o : Outcome (Session c Bytes) (Bool × ℕ)).
        Reads s.host s.port.net n (contents s.port) o in
      subst (λ b. R (process_data (keeper ends_file) (record s { bytes = b }))) (sym e)
        (subst (λ b. R (process_data (keeper ends_file) (record s { file = b; bytes = pos n })))
          (sym file) (process_data-known n s v h))

  -- `fefile` at the start of a file that is to be received.
  abbrev pub awaiting : Session c Bytes → Session c Bytes
  awaiting s = record s { file = true; bytes = minus_one }

  pub process_data-Reads :
      (n : ℕ) (s : Session c Bytes) (w : Bytes)
      → n < 2 ^ 63
      → IsValid s.port
      → contents s.port ≡ announce (pos n) ++ w
      → Reads s.host s.port.net n w (process_data (keeper ends_file) (awaiting s))
  unfolding process_data process_file
  process_data-Reads n s w h v e =
      let a = length-announce n in
      let fits : ceframelen ≤ used s.port =
        omega (arith, length-contents s.port, ap length e, length-append (announce (pos n)) w) in
      let t : ltb (used s.port) ceframelen ≡ false = ground arith in
      let (v', u', w') = taken-contents s.port ceframelen v fits in
      let left : contents (taken s.port ceframelen) ≡ w =
        w' ∙ ap (drop ceframelen) e ∙ drop-append (announce (pos n)) w ceframelen (sym a) in
      let header : header_bytes s.port ≡ announce (pos n) =
        pieces-take s.port ceframelen v fits
        ∙ ap (take ceframelen) e
        ∙ take-append (announce (pos n)) w ceframelen (sym a) in
      let number : strtol_decimal (header_bytes s.port) ≡ pos n =
        ap strtol_decimal header ∙ strtol-announce n h in
      let s' = record s { file = true; port = taken s.port ceframelen } in
      rw (process_file, t, number, sym left) (at_end-Reads n s' v' refl)
