-- ===== src/T/Ends.antt =====
-- The loops of `ftprocess_data` end, but for a length that does not fit an `int`.
use taylor_uucp.Base.{
  ℕ, zero, suc, ◌+◌, ◌-◌, ◌^◌, ◌≤◌, ◌<◌, ◌≡◌, ◌⊎◌, refl, sym, ap, ◌∙◌, inl, inr, Bool, true, false,
  List, [], ◌∷◌, Bytes, length, length-append, length-take, take, drop, take-append-drop, ◌++◌,
  append_assoc, ltb, leb, Bool-cases, arith,
}
use mathlib.Core.Bool.{false≢true}
use taylor_uucp.Base.Outcome.{Outcome, done, failed, stuck, Empty}
use taylor_uucp.Prot.{Conn}
use taylor_uucp.Prot.Room.{contents, IsValid}
use taylor_uucp.T.{Session, ctframelen, ctpacksize, process_data}
use taylor_uucp.T.Blocks.{
  Cut, missing, block, overlong, cut_command, cut_file, cut_file-overlong, cut_file-missing,
  cut_file-block, long_at, Reading, exits, waits, faults, more, after_cut, read_blocks,
  read_waiting,
}
use taylor_uucp.T.Agree.{collect, Agrees}
use taylor_uucp.T.Refine.{process_data-Agrees}

abbrev Faults : Reading → Type 0
Faults (exits bs w) = Empty
Faults (waits bs w n) = Empty
Faults faults = Unit {0}

Faults-more : (b : Bytes) (r : Reading) → Faults (more b r) → Faults r
Faults-more b (exits bs w) h = h
Faults-more b (waits bs w n) h = h
Faults-more b faults h = h

-- What is cut off is not empty, and stands before what follows.
abbrev Takes : Bytes → Cut → Type 0
Takes w (block b w') = (pre : Bytes) × (pre ++ w' ≡ w) × (0 < length pre)
Takes w (missing n) = Unit {0}
Takes w overlong = Unit {0}

-- The reading, block after block as long as none is the last, comes to a length that does not fit an
-- `int`.
pub data HasOverlong (cut : Bytes → Cut) (last : Bytes → Bool) : Bytes → Type 0 where
  at_front : {w : Bytes} → cut w ≡ overlong → HasOverlong cut last w
  behind_block :
      {w : Bytes} (b w' : Bytes)
      → cut w ≡ block b w'
      → last b ≡ false
      → HasOverlong cut last w'
      → HasOverlong cut last w

passed_over :
    (cut : Bytes → Cut) (last : Bytes → Bool) (w b w' : Bytes) (x : Bool) (r : Reading)
    → cut w ≡ block b w'
    → last b ≡ x
    → (Faults r → HasOverlong cut last w')
    → Faults (elim x [ true ↦ exits (b ∷ []) w' | false ↦ more b r ])
    → HasOverlong cut last w
passed_over cut last w b w' true r e l h k = elim k [ ]
passed_over cut last w b w' false r e l h k = behind_block b w' e l (h (Faults-more b r k))

after-overlong :
    (cut : Bytes → Cut) (last : Bytes → Bool) (rest : Bytes → Reading) (w : Bytes) (x : Cut)
    → cut w ≡ x
    → Takes w x
    → ((w' : Bytes) → length w' < length w → Faults (rest w') → HasOverlong cut last w')
    → Faults (after_cut last rest w x)
    → HasOverlong cut last w
after-overlong cut last rest w (missing n) e t h k = elim k [ ]
after-overlong cut last rest w overlong e t h k = at_front e
after-overlong cut last rest w (block b w') e (pre, p, pos) h k =
    let l = ap length p in
    passed_over cut last w b w' (last b) (rest w') e refl
      (h w' (omega (arith, length-append pre w'))) k

overlong_of_Faults :
    (cut : Bytes → Cut) (last : Bytes → Bool)
    → ((w : Bytes) → Takes w (cut w))
    → (f : ℕ) (w : Bytes) → length w < f
    → Faults (read_blocks f cut last w)
    → HasOverlong cut last w
unfolding read_blocks
overlong_of_Faults cut last t zero w l k = absurd (omega arith)
overlong_of_Faults cut last t (suc f) w l k =
    after-overlong cut last (read_blocks f cut last) w (cut w) refl (t w)
      (λ w' h. overlong_of_Faults cut last t f w' (omega arith)) k

cut_command-Takes : (w : Bytes) → Takes w (cut_command w)
cut_command-Takes w = elim (Bool-cases (ltb (length w) ctpacksize)) [
  | inl t ↦ rw t tt
  | inr t ↦
      rw t
        (take ctpacksize w, take-append-drop ctpacksize w, ground (arith, length-take ctpacksize w))
]

abbrev is_overlong : Cut → Bool
is_overlong overlong = true
is_overlong (missing n) = false
is_overlong (block b w) = false

cut_command-is_overlong : (w : Bytes) → is_overlong (cut_command w) ≡ false
cut_command-is_overlong w = elim (Bool-cases (ltb (length w) ctpacksize)) [
  | inl t ↦ rw t refl
  | inr t ↦ rw t refl
]

cut_file-Takes : (w : Bytes) → Takes w (cut_file w)
cut_file-Takes w = elim (Bool-cases (ltb (length w) ctframelen)) [
  | inl t ↦ rw t tt
  | inr t ↦ elim (Bool-cases (leb (2 ^ 31 - ctframelen) (long_at w))) [
    | inl neg ↦ rw (cut_file-overlong w (ground arith) (long_at w) refl neg) tt
    | inr pos ↦ elim (Bool-cases (ltb (length w) (long_at w + ctframelen))) [
      | inl short ↦ rw (cut_file-missing w (ground arith) (long_at w) refl pos (ground arith)) tt
      | inr room ↦
          let n = long_at w in
          let v = drop ctframelen w in
          let wide : n + ctframelen ≤ length w = ground arith in
          rw (cut_file-block w (ground arith) n refl pos wide) (
            take ctframelen w ++ take n v,
            append_assoc (take ctframelen w) (take n v) (drop n v)
                ∙ ap (λ z. take ctframelen w ++ z) (take-append-drop n v)
                ∙ take-append-drop ctframelen w,
            omega (arith, length-append (take ctframelen w) (take n v), length-take ctframelen w),
          )
    ]
  ]
]

command-HasOverlong : (last : Bytes → Bool) {w : Bytes} → HasOverlong cut_command last w → ⊥
command-HasOverlong last {w} (at_front e) =
    false≢true (sym (cut_command-is_overlong w) ∙ ap is_overlong e)
command-HasOverlong last (behind_block b w' e l h) = command-HasOverlong last h

waiting-Faults :
    (file : Bool) (last : Bytes → Bool) (w : Bytes)
    → Faults (read_waiting file last w)
    → (file ≡ true) × HasOverlong cut_file last w
waiting-Faults false last w h = absurd (
    command-HasOverlong last
      (overlong_of_Faults cut_command last cut_command-Takes (length w + 1) w (omega arith) h))
waiting-Faults true last w h =
    (refl, overlong_of_Faults cut_file last cut_file-Takes (length w + 1) w (omega arith) h)

module _ {c : Conn} where
  -- The call returns TRUE.
  abbrev pub Returns : Outcome (Session c (List Bytes)) (Bool × ℕ) → Type 0
  Returns (done r s) = Unit {0}
  Returns (failed s) = Empty
  Returns stuck = Empty

  Agrees-Returns :
      (hs : List Bytes) (r : Reading) (o : Outcome (Session c (List Bytes)) (Bool × ℕ))
      → Agrees hs r o
      → Returns o ⊎ Faults r
  Agrees-Returns hs r (done x s) a = inl tt
  Agrees-Returns hs faults stuck a = inr tt
  Agrees-Returns hs (exits bs w) stuck a = elim a [ ]
  Agrees-Returns hs (waits bs w n) stuck a = elim a [ ]
  Agrees-Returns hs faults (failed s) a = elim a [ ]
  Agrees-Returns hs (exits bs w) (failed s) a = elim a [ ]
  Agrees-Returns hs (waits bs w n) (failed s) a = elim a [ ]

  -- With the buffer's indices in range and a caller that takes every block, `ftprocess_data`
  -- returns TRUE, unless it reads a file and, taking block after block off the waiting bytes as
  -- long as none is the last, comes to a length that is 4 or less below 2^31, or above.
  pub process_data-Returns :
      (last : Bytes → Bool) (s : Session c (List Bytes))
      → IsValid s.port
      → Returns (process_data (collect last) s)
        ⊎ ((s.file ≡ true) × HasOverlong cut_file last (contents s.port))
  process_data-Returns last s v =
      elim (Agrees-Returns s.host (read_waiting s.file last (contents s.port))
        (process_data (collect last) s) (process_data-Agrees last s v)) [
          | inl r ↦ inl r
          | inr f ↦ inr (waiting-Faults s.file last (contents s.port) f)
        ]
