-- ===== src/T/Agree.antt =====
-- What it means that the loops of `ftprocess_data` do what a reading says, for one block.
use taylor_uucp.Base.{
  ℕ, zero, suc, ◌+◌, ◌%◌, ◌≤◌, ◌<◌, ◌≡◌, refl, sym, ap, ◌∙◌, Bool, true, false, List, [], ◌∷◌, ◌++◌,
  append_assoc, Bytes, length, take, get_or, if◌then◌else◌, arith,
}
use mathlib.Core.Path.{subst}
use taylor_uucp.Base.Outcome.{Outcome, done, failed, stuck, ◌then◌, Empty}
use taylor_uucp.Prot.{Conn, Port, crecbuflen}
use taylor_uucp.Prot.Queue.{taken, pieces-take}
use taylor_uucp.Prot.Room.{window, used, contents, IsValid, length-window}
use taylor_uucp.T.{Session, GotData, ctframelen, block_length, pass}
use taylor_uucp.T.Blocks.{long_at, Reading, exits, waits, faults, more}

get_or-window :
    (m : ℕ → ℕ) (n h i : ℕ)
    → h < crecbuflen
    → i < n
    → get_or (window m h n) i 0 ≡ m ((h + i) % crecbuflen)
get_or-window m zero h i hh l = omega arith
get_or-window m (suc n) h zero hh l = ap m (omega arith)
get_or-window m (suc n) h (suc i) hh l =
    get_or-window m n ((h + 1) % crecbuflen) i (omega arith) (omega arith) ∙ ap m (omega arith)

module _ {c : Conn} where
  -- A caller that keeps the blocks, and ends the loop by their bytes.
  abbrev pub collect : (Bytes → Bool) → GotData c (List Bytes)
  collect last a b s = done (last (a ++ b)) (record s { host = s.host ++ (a ++ b) ∷ [] })

  -- The blocks `bs` have been handed on after others, and `w` is left.
  pub record After (given_so_far bs : List Bytes) (w : Bytes) (s' : Session c (List Bytes))
      : Type 0 where
    pub valid : IsValid s'.port
    pub given : s'.host ≡ given_so_far ++ bs
    pub left : contents s'.port ≡ w

  -- The outcome is what the reading says.
  abbrev pub Agrees : List Bytes → Reading → Outcome (Session c (List Bytes)) (Bool × ℕ) → Type 0
  Agrees hs (exits bs w) (done r s') = (r.0 ≡ true) × After hs bs w s'
  Agrees hs (waits bs w n) (done r s') = (r ≡ (false, n)) × After hs bs w s'
  Agrees hs faults stuck = Unit {0}
  Agrees hs r o = Empty

  abbrev pub given_one : Session c (List Bytes) → Bytes → Port c → Session c (List Bytes)
  given_one s b p = record s { host = s.host ++ b ∷ []; port = p }

  -- One more block in front.
  After-more :
      (hs : List Bytes) (s' : Session c (List Bytes)) (b : Bytes) (bs : List Bytes) (w : Bytes)
      → After (hs ++ b ∷ []) bs w s'
      → After hs (b ∷ bs) w s'
  After-more hs s' b bs w a = record {
    valid = a.valid;
    given = a.given ∙ append_assoc hs (b ∷ []) bs;
    left = a.left;
  }

  Agrees-more :
      (hs : List Bytes) (b : Bytes) (r : Reading) (o : Outcome (Session c (List Bytes)) (Bool × ℕ))
      → Agrees (hs ++ b ∷ []) r o
      → Agrees hs (more b r) o
  Agrees-more hs b (exits bs w) (done r s') h = (h.0, After-more hs s' b bs w h.1)
  Agrees-more hs b (waits bs w n) (done r s') h = (h.0, After-more hs s' b bs w h.1)
  Agrees-more hs b faults stuck h = tt
  Agrees-more hs b (exits bs w) (failed s') h = h
  Agrees-more hs b (exits bs w) stuck h = h
  Agrees-more hs b (waits bs w n) (failed s') h = h
  Agrees-more hs b (waits bs w n) stuck h = h
  Agrees-more hs b faults (done r s') h = h
  Agrees-more hs b faults (failed s') h = h

  pass-collect :
      (last : Bytes → Bool) (n : ℕ) (s : Session c (List Bytes))
      → IsValid s.port
      → n ≤ used s.port
      → let b = take n (contents s.port) in
        pass (collect last) n s ≡ done (last b) (given_one s b (taken s.port n))
  unfolding pass
  pass-collect last n s v h =
      ap (λ b. done (last b) (given_one s b (taken s.port n))) (pieces-take s.port n v h)

  -- What a round does with a block of `n` bytes that `got` has been given, where `loop` goes on.
  abbrev pub on_block :
      (Session c (List Bytes) → Outcome (Session c (List Bytes)) (Bool × ℕ))
      → Bool
      → Session c (List Bytes)
      → Outcome (Session c (List Bytes)) (Bool × ℕ)
  on_block loop x s' = elim x [ true ↦ done (true, 0) s' | false ↦ loop s' ]

  on_block-Agrees :
      (s : Session c (List Bytes)) (b w : Bytes) (p : Port c) (x : Bool) (rest : Reading)
      (loop : Session c (List Bytes) → Outcome (Session c (List Bytes)) (Bool × ℕ))
      → IsValid p
      → contents p ≡ w
      → Agrees (s.host ++ b ∷ []) rest (loop (given_one s b p))
      → Agrees s.host
          (elim x [ true ↦ exits (b ∷ []) w | false ↦ more b rest ])
          (on_block loop x (given_one s b p))
  on_block-Agrees s b w p true rest loop v e h =
      (refl, record { valid = v; given = refl; left = e })
  on_block-Agrees s b w p false rest loop v e h =
      Agrees-more s.host b rest (loop (given_one s b p)) h

  pub length-contents : (p : Port c) → length (contents p) ≡ used p
  length-contents p = length-window p.prec_buf p.prec_start (used p)

  pub long_at-contents :
      (p : Port c) → IsValid p → ctframelen ≤ used p → long_at (contents p) ≡ block_length p
  long_at-contents p v h =
      let at : (i : ℕ)
          → i < ctframelen
          → get_or (contents p) i 0 ≡ p.prec_buf ((p.prec_start + i) % crecbuflen) =
        λ i l. get_or-window p.prec_buf (used p) p.prec_start i v.start_in (omega arith) in
      let z : (p.prec_start + 0) % crecbuflen ≡ p.prec_start = omega arith in
      rw (at 0 (omega arith), at 1 (omega arith), at 2 (omega arith), at 3 (omega arith), z) refl

  pub passed-Agrees :
      (last : Bytes → Bool) (n : ℕ) (s : Session c (List Bytes)) (w : Bytes) (rest : Reading)
      (loop : Session c (List Bytes) → Outcome (Session c (List Bytes)) (Bool × ℕ))
      → IsValid s.port
      → n ≤ used s.port
      → IsValid (taken s.port n)
      → contents (taken s.port n) ≡ w
      → let b = take n (contents s.port) in
        Agrees (s.host ++ b ∷ []) rest (loop (given_one s b (taken s.port n)))
        → Agrees s.host
            (elim (last b) [ true ↦ exits (b ∷ []) w | false ↦ more b rest ])
            (pass (collect last) n s then on_block loop)
  passed-Agrees last n s w rest loop v h v' e a =
      let b = take n (contents s.port) in
      subst
        (λ o.
          Agrees s.host (elim (last b) [ true ↦ exits (b ∷ []) w | false ↦ more b rest ])
            (o then on_block loop))
        (sym (pass-collect last n s v h))
        (on_block-Agrees s b w (taken s.port n) (last b) rest loop v' e a)
