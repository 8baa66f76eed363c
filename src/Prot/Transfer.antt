-- ===== src/Prot/Transfer.antt =====
-- `fsend_data`, `freceive_data` and `breceive_char` over a connection that does what conn.h says.
use taylor_uucp.Base.{
  ℕ, zero, suc, ◌+◌, ◌-◌, ◌%◌, ◌≤◌, ◌<◌, ◌≡◌, ◌≢◌, ◌⊎◌, inl, inr, refl, sym, ap, ◌∙◌, Bool, true,
  false, some, [], ◌∷◌, ◌++◌, append-nil, append_assoc, Bytes, length, take, drop, take-append-drop,
  length-drop, ltb, ◌==◌, if◌then◌else◌, Bool-cases, Option-cases, arith,
}
use taylor_uucp.Base.Outcome.{Outcome, done, failed, stuck, Ends}
use taylor_uucp.Prot.{Conn, Port, crecbuflen, room, append_read, conn_write, send_loop, send_data}
use native.Mathlib.Decide.{dec_lt}
use taylor_uucp.Prot.Room.{used, contents, IsValid, room_bounds, append_read_lem, copy_in_outside}

-- What conn.h documents. `wrote` is all that was written to the connection so far. `io` goes on
-- until all is written or the read buffer is full.
pub record Documented (c : Conn) : Type 0 where
  pub wrote : c.Net → Bytes
  pub write_wrote : (n n' : c.Net) (z : Bytes) → c.write n z ≡ some n' → wrote n' ≡ wrote n ++ z
  pub io_wrote :
      (n n' : c.Net) (z : Bytes) (max csent : ℕ) (rec : Bytes)
      → c.io n z max ≡ some (csent, rec, n')
      → wrote n' ≡ wrote n ++ take csent z
  pub io_bounds :
      (n n' : c.Net) (z : Bytes) (max csent : ℕ) (rec : Bytes)
      → c.io n z max ≡ some (csent, rec, n')
      → (csent ≤ length z) × (length rec ≤ max) × ((csent ≡ length z) ⊎ (length rec ≡ max))
  pub read_wrote :
      (n n' : c.Net) (max need timeout : ℕ) (report : Bool) (rec : Bytes)
      → c.read n max need timeout report ≡ some (rec, n')
      → (wrote n' ≡ wrote n) × (length rec ≤ max)

-- The rounds that `fsend_data` may need: the reads fill the array up to its end, then from its
-- start, and then there is no room.
abbrev rounds : {c : Conn} → Port c → ℕ
rounds p =
    if room p == 0
    then 1
    else if ltb p.prec_end p.prec_start
    then 2
    else if ltb p.prec_start 2
    then 2
    else 3

module _ {c : Conn} where
  -- Where `q` starts as `p` does, the bytes of the array that do not wait in it are those of `p`.
  abbrev pub Kept : Port c → Port c → Type 0
  Kept p q =
      (j : ℕ)
      → j < crecbuflen
      → used q ≤ (j + crecbuflen - p.prec_start) % crecbuflen
      → q.prec_buf j ≡ p.prec_buf j

module _ {c : Conn} (d : Documented c) where
  -- All of `z` has been written, what was read meanwhile is at the end of the contents, and the
  -- bytes of the array that do not wait to be read then are as they were.
  pub record Sent (p : Port c) (z : Bytes) (q : Port c) : Type 0 where
    pub valid : IsValid q
    pub written : d.wrote q.net ≡ d.wrote p.net ++ z
    pub rec : Bytes
    pub read : contents q ≡ contents p ++ rec
    pub start : q.prec_start ≡ p.prec_start
    pub grown : used p ≤ used q
    pub kept : Kept p q

  conn_write-Sent :
      (p : Port c) (z : Bytes) → IsValid p → Ends (λ _ q. Sent p z q) IsValid (conn_write p z)
  unfolding conn_write
  conn_write-Sent p z v = elim (Option-cases (c.write p.net z)) [
    | inl e ↦ rw (e, Ends) v
    | inr (n, e) ↦
        rw (e, Ends)
          (record {
            valid = record { start_in = v.start_in; end_in = v.end_in };
            written = d.write_wrote p.net n z e;
            rec = [];
            read = sym (append-nil _);
            start = refl;
            grown = omega arith;
            kept = λ j h k. refl;
          })
  ]

  -- Nothing is written.
  pub Sent-refl : (p : Port c) → IsValid p → Sent p [] p
  Sent-refl p v = record {
    valid = v;
    written = sym (append-nil _);
    rec = [];
    read = sym (append-nil _);
    start = refl;
    grown = omega arith;
    kept = λ j h k. refl;
  }

  pub Sent-trans :
      (p q r : Port c) (z z' z'' : Bytes) → Sent p z q → Sent q z' r → z ++ z' ≡ z'' → Sent p z'' r
  Sent-trans p q r z z' z'' s t e = record {
    valid = t.valid;
    written =
        t.written
        ∙ ap (λ w. w ++ z') s.written
        ∙ append_assoc _ z z'
        ∙ ap (λ w. d.wrote p.net ++ w) e;
    rec = s.rec ++ t.rec;
    read = t.read ∙ ap (λ w. w ++ t.rec) s.read ∙ append_assoc (contents p) s.rec t.rec;
    start = t.start ∙ s.start;
    grown = omega (arith, s.grown, t.grown);
    kept = λ j h k. t.kept j h (rw s.start k) ∙ s.kept j h (omega (arith, k, t.grown));
  }

  append_read-Kept :
      (p : Port c) (rec : Bytes) (n : c.Net)
      → IsValid p
      → length rec ≤ room p
      → Kept p (append_read p rec n)
  append_read-Kept p rec n v fits j h k =
      let b = room_bounds p v in
      let u = (append_read_lem p rec n v fits).1 in
      copy_in_outside rec p.prec_buf p.prec_end j (elim (dec_lt j p.prec_end) [
        | yes lt ↦ inl lt
        | no ge ↦ inr (omega (arith, u, k, ge, b.0, b.1))
      ])

  io-Sent :
      (p : Port c) (z : Bytes) (csent : ℕ) (rec : Bytes) (n : c.Net)
      → IsValid p
      → c.io p.net z (room p) ≡ some (csent, rec, n)
      → Sent p (take csent z) (append_read p rec n)
  io-Sent p z csent rec n v e =
      let b = d.io_bounds _ _ z (room p) csent rec e in
      let a = append_read_lem p rec n v b.1 in
      record {
        valid = a.0;
        written = d.io_wrote _ _ z (room p) csent rec e;
        rec = rec;
        read = a.2;
        start = refl;
        grown = omega (arith, a.1);
        kept = append_read-Kept p rec n v b.1;
      }

  rounds-append_read :
      (p : Port c) (rec : Bytes) (n : c.Net)
      → IsValid p
      → room p ≢ 0
      → length rec ≡ room p
      → rounds (append_read p rec n) + 1 ≤ rounds p
  unfolding room
  rounds-append_read p rec n v ne e = ground arith

  Ends-Sent-trans :
      (p q : Port c) (z z' z'' : Bytes) (o : Outcome (Port c) (Unit {0}))
      → Sent p z q
      → z ++ z' ≡ z''
      → Ends (λ _ r. Sent q z' r) IsValid o
      → Ends (λ _ r. Sent p z'' r) IsValid o
  Ends-Sent-trans p q z z' z'' (done a r) s e t = Sent-trans p q r z z' z'' s t e
  Ends-Sent-trans p q z z' z'' (failed r) s e t = t
  Ends-Sent-trans p q z z' z'' stuck s e t = t

  -- Enough rounds are left, or nothing is.
  abbrev Enough : ℕ → Port c → Bytes → Type 0
  Enough f p z = (rounds p ≤ f) ⊎ ((length z ≡ 0) × (1 ≤ f))

  Enough-next :
      (f : ℕ) (p : Port c) (z : Bytes) (csent : ℕ) (rec : Bytes) (n : c.Net)
      → IsValid p
      → room p ≢ 0
      → rounds p ≤ suc f
      → (csent ≡ length z) ⊎ (length rec ≡ room p)
      → Enough f (append_read p rec n) (drop csent z)
  Enough-next f p z csent rec n v ne h (inl e) =
      inr (omega (arith, length-drop csent z), ground arith)
  Enough-next f p z csent rec n v ne h (inr e) =
      inl (omega (arith, rounds-append_read p rec n v ne e))

  send_loop-Sent :
      (f : ℕ) (p : Port c) (z : Bytes)
      → IsValid p
      → Enough f p z
      → Ends (λ _ q. Sent p z q) IsValid (send_loop f p z)
  unfolding send_loop
  send_loop-Sent zero p z v h = absurd (ground arith)
  send_loop-Sent (suc f) p [] v h = Sent-refl p v
  send_loop-Sent (suc f) p (b ∷ bs) v h = elim (Bool-cases (room p == 0)) [
    | inl full ↦ rw (full, Ends) (conn_write-Sent p (b ∷ bs) v)
    | inr free ↦
        rw (free, Ends)
          (elim (Option-cases (c.io p.net (b ∷ bs) (room p))) [
            | inl e ↦ rw (e, Ends) v
            | inr ((csent, rec, n), e) ↦
                rw (e, Ends)
                  (Ends-Sent-trans p (append_read p rec n) (take csent (b ∷ bs))
                    (drop csent (b ∷ bs)) (b ∷ bs)
                    (send_loop f (append_read p rec n) (drop csent (b ∷ bs)))
                    (io-Sent p (b ∷ bs) csent rec n v e) (take-append-drop csent (b ∷ bs))
                    (send_loop-Sent f (append_read p rec n) (drop csent (b ∷ bs))
                      (io-Sent p (b ∷ bs) csent rec n v e).valid
                      (Enough-next f p (b ∷ bs) csent rec n v (ground arith) (ground arith)
                        (d.io_bounds _ _ (b ∷ bs) (room p) csent rec e).2)))
          ])
  ]

  rounds-le : (p : Port c) → rounds p ≤ 3
  rounds-le p = ground arith

  -- Over a connection that does what conn.h says, and with the buffer's indices in range,
  -- `fsend_data` returns, reading at most twice on the way. If it is TRUE, all the data has been
  -- written, in order and once, the indices are in range, what was read meanwhile is behind the
  -- bytes that were waiting, none of which is lost or overwritten, and the bytes of the array
  -- that do not wait to be read then are as they were; if it is FALSE the indices are still in
  -- range.
  pub send_data_lem :
      (p : Port c) (z : Bytes) (doread : Bool)
      → IsValid p
      → Ends (λ _ q. Sent p z q) IsValid (send_data p z doread)
  unfolding send_data
  send_data_lem p z true v = send_loop-Sent 3 p z v (inl (rounds-le p))
  send_data_lem p z false v = conn_write-Sent p z v
