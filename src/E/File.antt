-- ===== src/E/File.antt =====
-- A file whose size is known, read by `feprocess_data`.
use taylor_uucp.Base.{
  ℕ, zero, suc, ◌-◌, ◌≤◌, ◌<◌, ◌≡◌, refl, sym, ap, ◌∙◌, inl, inr, Bool, true, false, ◌||◌, [], ◌∷◌,
  ◌++◌, append-nil, Bytes, length, length-take, length-drop, take, drop, take-append-drop, ltb, leb,
  ◌==◌, if◌then◌else◌, Bool-cases, arith,
}
use taylor_uucp.Base.Outcome.{Outcome, done, failed, stuck, ◌then◌, Empty}
use taylor_uucp.Command.Number.{pos}
use taylor_uucp.Prot.{Conn, Port}
use taylor_uucp.Prot.Queue.{taken, taken-contents, pieces-take}
use taylor_uucp.Prot.Room.{used, contents, IsValid, length-window}
use taylor_uucp.E.{Session, GotData, file_need, is_zero, at_end, pass_data, file_loop}
use taylor_uucp.E.Number.{minus_nat}

-- A caller that keeps the bytes, and ends the loop by what it is given.
abbrev pub keeper : {c : Conn} → (Bytes → Bool) → GotData c Bytes
keeper last a b s = done (last (a ++ b)) (record s { host = s.host ++ (a ++ b) })

-- The end of a file is a call without bytes.
abbrev pub ends_file : Bytes → Bool
ends_file b = length b == 0

length_zero : (w : Bytes) → length w ≡ 0 → w ≡ []
length_zero [] h = refl
length_zero (b ∷ w) h = absurd (omega arith)

module _ {c : Conn} where
  -- `given` has been handed on, `w` is left, and `m` bytes of the file are missing.
  pub record Took (so_far : Bytes) (net : c.Net) (given w : Bytes) (m : ℕ) (s' : Session c Bytes)
      : Type 0 where
    pub valid : IsValid s'.port
    pub handed : s'.host ≡ so_far ++ given
    pub left : contents s'.port ≡ w
    pub missing : s'.bytes ≡ pos m
    pub same_net : s'.port.net ≡ net
    pub during : s'.file ≡ true

  -- The outcome for a file of which `n` bytes are missing, where the bytes `w` wait.
  abbrev pub Reads : Bytes → c.Net → ℕ → Bytes → Outcome (Session c Bytes) (Bool × ℕ) → Type 0
  Reads h net n w (done r s') =
      if leb n (length w)
      then (r ≡ (true, 0)) × Took h net (take n w) (drop n w) 0 s'
      else (r ≡ (false, file_need (pos (n - length w)))) × Took h net w [] (n - length w) s'
  Reads h net n w (failed s') = Empty
  Reads h net n w stuck = Empty

  pub length-contents : (p : Port c) → length (contents p) ≡ used p
  length-contents p = length-window p.prec_buf p.prec_start (used p)

  pass_data-keeper :
      (n : ℕ) (s : Session c Bytes)
      → IsValid s.port
      → n ≤ used s.port
      → let b = take n (contents s.port) in
        pass_data (keeper ends_file) n s
        ≡ done
            (ends_file b)
            (record s { host = s.host ++ b; port = taken s.port n; bytes = minus_nat s.bytes n })
  unfolding pass_data
  pass_data-keeper n s v h =
      ap
        (λ b.
          done (ends_file b)
            (record s { host = s.host ++ b; port = taken s.port n; bytes = minus_nat s.bytes n }))
        (pieces-take s.port n v h)

  -- The file is complete.
  pub at_end_zero :
      (loop : Bool → Session c Bytes → Outcome (Session c Bytes) (Bool × ℕ)) (x : Bool)
      (s : Session c Bytes)
      → s.bytes ≡ pos 0
      → at_end (keeper ends_file) loop x s ≡ done (true, 0) (record s { host = s.host ++ [] })
  unfolding at_end
  at_end_zero loop false s e = rw (at_end, e) refl
  at_end_zero loop true s e = rw (at_end, e) refl

  pub at_end-more :
      (loop : Bool → Session c Bytes → Outcome (Session c Bytes) (Bool × ℕ)) (x : Bool) (n : ℕ)
      (s : Session c Bytes)
      → s.bytes ≡ pos n
      → 0 < n
      → at_end (keeper ends_file) loop x s ≡ loop x s
  unfolding at_end
  at_end-more loop x n s e h =
      let z : is_zero s.bytes ≡ false = rw e (ground arith) in rw (at_end, z) refl

  -- The session, with `n` bytes of the file missing.
  abbrev pub missing_of : Session c Bytes → ℕ → Session c Bytes
  missing_of s n = record s { bytes = pos n }

  file_loop-none :
      (f : ℕ) (x : Bool) (s : Session c Bytes)
      → file_loop (suc f) (keeper ends_file) 0 x s ≡ done (x, file_need s.bytes) s
  unfolding file_loop
  file_loop-none f x s = refl

  file_loop-some :
      (f u n : ℕ) (x : Bool) (s : Session c Bytes)
      → 0 < u
      → let clen = if ltb n u then n else u in
        file_loop (suc f) (keeper ends_file) u x (missing_of s n)
        ≡ pass_data (keeper ends_file) clen (missing_of s n) then λ x' s'.
            at_end (keeper ends_file) (file_loop f (keeper ends_file) (u - clen)) (x || x') s'
  unfolding file_loop
  file_loop-some f u n x s h = let z : (u == 0) ≡ false = ground arith in rw (file_loop, z) refl

  -- One round, of `m` bytes.
  file_loop-round :
      (f u n m : ℕ) (s : Session c Bytes)
      → 0 < u
      → u ≡ used s.port
      → IsValid s.port
      → (if ltb n u then n else u) ≡ m
      → m ≤ n
      → 0 < m
      → let b = take m (contents s.port) in
        let s' = record s { host = s.host ++ b; port = taken s.port m; bytes = pos (n - m) } in
        file_loop (suc f) (keeper ends_file) u false (missing_of s n)
        ≡ at_end (keeper ends_file) (file_loop f (keeper ends_file) (u - m)) false s'
  unfolding minus_nat
  file_loop-round f u n m s h eu v e le lt =
      let le' : m ≤ used s.port = ground arith in
      let k = pass_data-keeper m (missing_of s n) v le' in
      let d : leb m n ≡ true = ground arith in
      let x : ends_file (take m (contents s.port)) ≡ false =
        ground (arith, length-take m (contents s.port), length-contents s.port) in
      file_loop-some f u n false s h ∙ rw (e, k, x, d) refl

  pub rounds-Reads :
      (u n : ℕ) (s : Session c Bytes)
      → u ≡ used s.port
      → IsValid s.port
      → 0 < n
      → s.file ≡ true
      → Reads s.host s.port.net n
          (contents s.port)
          (file_loop (suc u) (keeper ends_file) u false (missing_of s n))
  rounds-Reads zero n s eu v pos_n file =
      let l : length (contents s.port) ≡ 0 = length-contents s.port ∙ sym eu in
      let t : leb n 0 ≡ false = ground arith in
      let e = length_zero (contents s.port) l in
      let z : n ≡ n - 0 = omega arith in
      rw (file_loop-none 0 false (missing_of s n), e, t)
        (
          ap (λ i. (false, file_need (pos i))) z,
          record {
            valid = v;
            handed = sym (append-nil s.host);
            left = e;
            missing = ap pos z;
            same_net = refl;
            during = file;
          },
        )
  rounds-Reads (suc f) n s eu v pos_n file =
      let w = contents s.port in
      let l : length w ≡ suc f = length-contents s.port ∙ sym eu in
      elim (Bool-cases (leb n (suc f))) [
        | inl t ↦
            let (v', u', w') = taken-contents s.port n v (ground arith) in
            let z : n - n ≡ 0 = omega arith in
            let b = take n w in
            let k =
              file_loop-round (suc f) (suc f) n n s (omega arith) eu v (ground arith) (omega arith)
                pos_n
              ∙ at_end_zero (file_loop (suc f) (keeper ends_file) (suc f - n)) false
                  (record s { host = s.host ++ b; port = taken s.port n; bytes = pos (n - n) })
                  (ap pos z) in
            rw (k, l, t)
              (
                refl,
                record {
                  valid = v';
                  handed = append-nil (s.host ++ b);
                  left = w';
                  missing = ap pos z;
                  same_net = refl;
                  during = file;
                },
              )
        | inr t ↦
            let m = suc f in
            let (v', u', w') = taken-contents s.port m v (omega arith) in
            let z : m - m ≡ 0 = omega arith in
            let b = take m w in
            let s' = record s { host = s.host ++ b; port = taken s.port m; bytes = pos (n - m) } in
            let k =
              file_loop-round m m n m s (omega arith) eu v (ground arith) (ground arith)
                (omega arith)
              ∙ at_end-more (file_loop m (keeper ends_file) (m - m)) false (n - m) s' refl
                  (ground arith)
              ∙ ap (λ i. file_loop m (keeper ends_file) i false s') z
              ∙ file_loop-none f false s' in
            let none : drop m w ≡ [] = length_zero (drop m w) (omega (arith, length-drop m w)) in
            let all : b ≡ w =
              sym (append-nil b) ∙ ap (λ y. b ++ y) (sym none) ∙ take-append-drop m w in
            rw (k, l, t)
              (
                refl,
                record {
                  valid = v';
                  handed = ap (λ y. s.host ++ y) all;
                  left = w' ∙ none;
                  missing = refl;
                  same_net = refl;
                  during = file;
                },
              )
      ]
