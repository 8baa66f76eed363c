-- ===== src/E/Wait/Announced.antt =====
-- `fewait` from the announcement of a file on.
use taylor_uucp.Base.{
  ℕ, zero, suc, ◌+◌, ◌-◌, ◌^◌, ◌≤◌, ◌<◌, ◌≡◌, refl, sym, ap, ◌∙◌, inl, inr, true, false, ◌++◌,
  Bytes, length, length-append, take, drop, take-append-drop, take-append, drop-append,
  take-append_le, drop-append_le, ltb, Bool-cases, arith,
}
use mathlib.Core.Path.{subst}
use taylor_uucp.Base.Outcome.{done}
use taylor_uucp.Command.Number.{pos}
use taylor_uucp.Prot.{Conn}
use taylor_uucp.Prot.Room.{used, contents, IsValid}
use taylor_uucp.Prot.Delivers.{Delivers}
use taylor_uucp.E.{Session, announce, ceframelen, process_file, process_data, wait}
use taylor_uucp.E.File.{keeper, ends_file, length-contents}
use taylor_uucp.E.RoundTrip.{awaiting, length-announce, process_data-Reads}
use taylor_uucp.E.Wait.{Ends, Stream, after_call, wait-known, next-receives}

module _ {c : Conn} (d : Delivers c) where
  -- The size is not there yet.
  process_data-short :
      (s : Session c Bytes)
      → used s.port < ceframelen
      → process_data (keeper ends_file) (awaiting s)
        ≡ done (false, ceframelen - used s.port) (awaiting s)
  unfolding process_data process_file
  process_data-short s h =
      let t : ltb (used s.port) ceframelen ≡ true = ground arith in rw (process_file, t) refl

  -- The size is there, and `v` behind it.
  split_at_size :
      (n : ℕ) (v R w : Bytes)
      → v ++ R ≡ announce (pos n) ++ w
      → ceframelen ≤ length v
      → (v ≡ announce (pos n) ++ drop ceframelen v) × (drop ceframelen v ++ R ≡ w)
  split_at_size n v R w e h =
      let l = sym (length-announce n) in
      let front : take ceframelen v ≡ announce (pos n) =
        sym (take-append_le ceframelen v R h)
        ∙ ap (take ceframelen) e
        ∙ take-append (announce (pos n)) w ceframelen l in
      (
        sym (take-append-drop ceframelen v) ∙ ap (λ z. z ++ drop ceframelen v) front,
        sym (drop-append_le ceframelen v R h)
            ∙ ap (drop ceframelen) e
            ∙ drop-append (announce (pos n)) w ceframelen l,
      )

  -- A file is announced, and arrives.
  record Comes (f n : ℕ) (w : Bytes) (s : Session c Bytes) : Type 0 where
    valid : IsValid s.port
    fits : n < 2 ^ 63
    all_sent : Stream d s ≡ announce (pos n) ++ w
    enough : n ≤ length w
    rounds : ceframelen - length (contents s.port) + n + 1 < f

  wait-sized :
      (f n : ℕ) (w : Bytes) (s : Session c Bytes)
      → Comes (suc f) n w s
      → ceframelen ≤ length (contents s.port)
      → Ends d s.host (take n w) (drop n w) (wait (suc f) (keeper ends_file) (awaiting s))
  unfolding wait
  wait-sized f n w s a h =
      let v = drop ceframelen (contents s.port) in
      let R = d.rest s.port.net in
      let (e, e') = split_at_size n (contents s.port) R w a.all_sent h in
      let k = process_data-Reads n s v a.fits a.valid e in
      let le : n ≤ length (v ++ R) = omega (arith, ap length e', a.enough) in
      subst
        (λ z. Ends d s.host (take n z) (drop n z) (wait (suc f) (keeper ends_file) (awaiting s))) e'
        (after_call d f n s.host v s.port.net (process_data (keeper ends_file) (awaiting s)) le
          (omega (arith, a.rounds)) (wait-known d f (n - length v)) k)

  wait-Comes :
      (f n : ℕ) (w : Bytes) (s : Session c Bytes)
      → Comes f n w s
      → Ends d s.host (take n w) (drop n w) (wait f (keeper ends_file) (awaiting s))
  unfolding wait
  wait-Comes zero n w s a = absurd (omega (arith, a.rounds))
  wait-Comes (suc f) n w s a = elim (Bool-cases (ltb (length (contents s.port)) ceframelen)) [
    | inr t ↦ wait-sized f n w s a (ground arith)
    | inl t ↦
        let lt : length (contents s.port) < ceframelen = ground arith in
        let u = length-contents s.port in
        let left : ceframelen ≤ length (Stream d s) =
          omega
            (arith, ap length a.all_sent, length-announce n, length-append (announce (pos n)) w) in
        let need = ceframelen - used s.port in
        let (rec, q, e, r) =
          next-receives d f need (awaiting s) a.valid (omega arith)
            (omega (arith, length-append (contents s.port) (d.rest s.port.net))) in
        let some = r.some_read in
        let s' = record s { port = q } in
        let more = ap length r.behind ∙ length-append (contents s.port) rec in
        let ih = wait-Comes f n w s' (record {
          valid = r.valid;
          fits = a.fits;
          all_sent = r.same ∙ a.all_sent;
          enough = a.enough;
          rounds = omega (arith, a.rounds, more);
        }) in
        rw (process_data-short s (omega arith), e) ih
  ]

  -- Over a connection on which every read that finds bytes gives some of them, in order, with the
  -- buffer's indices in range and a caller that keeps what it gets and ends the loop at a call
  -- without bytes: if the bytes that wait and those still to be read are the announcement that
  -- `fefile` sends for a file of `n` bytes, below 2^63, and at least `n` bytes behind it, then
  -- `fewait`, after `fefile` at the start of the file, returns TRUE within 22 + n rounds, in
  -- whatever pieces the bytes arrive. It has handed on exactly the first `n` bytes behind the
  -- announcement, and the bytes after them are still to be read.
  pub wait-announced :
      (f n : ℕ) (w : Bytes) (s : Session c Bytes)
      → IsValid s.port
      → n < 2 ^ 63
      → Stream d s ≡ announce (pos n) ++ w
      → n ≤ length w
      → ceframelen - length (contents s.port) + n + 1 < f
      → Ends d s.host (take n w) (drop n w) (wait f (keeper ends_file) (awaiting s))
  wait-announced f n w s v fits e le rounds =
      wait-Comes f n w s
        (record { valid = v; fits = fits; all_sent = e; enough = le; rounds = rounds })
