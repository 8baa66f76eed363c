-- ===== src/E/Wait.antt =====
-- `fewait` receives a whole file, whatever pieces its bytes arrive in.
pub mod Announced
use taylor_uucp.Base.{
  ℕ, zero, suc, ◌+◌, ◌-◌, ◌^◌, min, ◌≤◌, ◌<◌, ◌≡◌, refl, sym, ap, ◌∙◌, inl, inr, Bool, true, false,
  [], ◌∷◌, ◌++◌, append-nil, append_assoc, Bytes, length, length-append, take, drop,
  take-append-drop, take-append, drop-append, take-append_le, take-append_ge, drop-append_le,
  drop-append_ge, ltb, leb, ◌==◌, if◌then◌else◌, Bool-cases, arith,
}
use mathlib.Core.Path.{subst}
use taylor_uucp.Base.Outcome.{Outcome, done, failed, stuck, ◌then◌, Empty}
use taylor_uucp.Command.Number.{ℤ, pos, minus_one}
use taylor_uucp.Prot.{Conn, Port, crecbuflen, receive_data}
use taylor_uucp.Prot.Room.{used, contents, IsValid}
use taylor_uucp.Prot.Delivers.{Delivers, stream, ReadBehind, receive_data-ReadBehind}
use taylor_uucp.E.{
  Session, announce, ceframelen, file_need, process_file, process_data, wait, on_line,
}
use taylor_uucp.E.File.{keeper, ends_file, Took, Reads, missing_of, length-contents}
use taylor_uucp.E.RoundTrip.{awaiting, length-announce, process_data-continues, process_data-Reads}

module _ {c : Conn} (d : Delivers c) where
  -- The call returns TRUE, `given` has been handed on after `so_far`, and `w` is left to read.
  pub record Whole (so_far given w : Bytes) (s' : Session c Bytes) : Type 0 where
    pub valid : IsValid s'.port
    pub handed : s'.host ≡ so_far ++ given
    pub left : stream d s'.port ≡ w
    pub complete : s'.bytes ≡ pos 0

  abbrev pub Ends : Bytes → Bytes → Bytes → Outcome (Session c Bytes) (Unit {0}) → Type 0
  Ends h z w (done x s') = Whole h z w s'
  Ends h z w (failed s') = Empty
  Ends h z w stuck = Empty

  abbrev pub Stream : Session c Bytes → Bytes
  Stream s = stream d s.port

  abbrev after_read : ℕ → ℕ → Session c Bytes → Outcome (Session c Bytes) (Unit {0})
  after_read f n s₂ = elim (n == 0) [ true ↦ failed s₂ | false ↦ wait f (keeper ends_file) s₂ ]

  after_read-some :
      (f n : ℕ) (s₂ : Session c Bytes) → 0 < n → after_read f n s₂ ≡ wait f (keeper ends_file) s₂
  after_read-some f n s₂ h = let z : (n == 0) ≡ false = ground arith in rw (after_read, z) refl

  -- What a round does after a call that returned TRUE.
  abbrev next : ℕ → (Bool × ℕ) → Session c Bytes → Outcome (Session c Bytes) (Unit {0})
  next f r s₁ = elim r.0 [
    | true ↦ done tt s₁
    | false ↦ on_line s₁ (receive_data s₁.port r.1 s₁.timeout true) then after_read f
  ]

  wait-next :
      (f : ℕ) (s : Session c Bytes)
      → wait (suc f) (keeper ends_file) s ≡ process_data (keeper ends_file) s then next f
  unfolding wait
  wait-next f s = refl

  -- Where the call wants more, a read comes in between.
  next-receives :
      (f need : ℕ) (s : Session c Bytes)
      → IsValid s.port
      → used s.port + 1 < crecbuflen
      → 0 < length (d.rest s.port.net)
      → (rec : Bytes) × (q : Port c) × (next f (false, need) s
          ≡ wait f (keeper ends_file) (record s { port = q }))
        × ReadBehind d s.port rec q
  next-receives f need s v free some_left =
      let (rec, q, e, r) = receive_data-ReadBehind d s.port need s.timeout v free some_left in
      let some_read = r.some_read in
      (
        rec,
        q,
        ap (λ o. on_line s o then after_read f) e
            ∙ after_read-some f (length rec) (record s { port = q }) some_read,
        r,
      )

  -- `n` bytes of the file are missing, and all of them arrive.
  record Arrives (f n : ℕ) (s : Session c Bytes) : Type 0 where
    valid : IsValid s.port
    during : s.file ≡ true
    size : s.bytes ≡ pos n
    some_missing : 0 < n
    enough : n ≤ length (Stream s)
    rounds : n + 1 < f + min 1 (length (contents s.port))

  abbrev Continues : ℕ → ℕ → Type 0
  Continues f n =
      (s : Session c Bytes)
      → Arrives f n s
      → Ends s.host (take n (Stream s)) (drop n (Stream s)) (wait f (keeper ends_file) s)

  complete :
      (f n : ℕ) (h w : Bytes) (net : c.Net) (s' : Session c Bytes)
      → n ≤ length w
      → Took h net (take n w) (drop n w) 0 s'
      → Whole h (take n (w ++ d.rest net)) (drop n (w ++ d.rest net)) s'
  complete f n h w net s' le k =
      let R = d.rest net in
      record {
        valid = k.valid;
        handed = k.handed ∙ ap (λ z. h ++ z) (sym (take-append_le n w R le));
        left =
            ap (λ z. z ++ d.rest s'.port.net) k.left
            ∙ ap (λ m. drop n w ++ d.rest m) k.same_net
            ∙ sym (drop-append_le n w R le);
        complete = k.missing;
      }

  Ends-after :
      (g h w z y : Bytes) (o : Outcome (Session c Bytes) (Unit {0}))
      → g ≡ h ++ w
      → Ends g z y o
      → Ends h (w ++ z) y o
  Ends-after g h w z y (done x s') e k = record {
    valid = k.valid;
    handed = k.handed ∙ ap (λ b. b ++ z) e ∙ append_assoc h w z;
    left = k.left;
    complete = k.complete;
  }
  Ends-after g h w z y (failed s') e k = k
  Ends-after g h w z y stuck e k = k

  goes_on :
      (f n need : ℕ) (h w : Bytes) (net : c.Net) (s' : Session c Bytes)
      → length w < n
      → n ≤ length (w ++ d.rest net)
      → n + 1 < suc f + min 1 (length w)
      → Took h net w [] (n - length w) s'
      → Continues f (n - length w)
      → Ends h (take n (w ++ d.rest net)) (drop n (w ++ d.rest net)) (next f (false, need) s')
  goes_on f n need h w net s' lt le fuel k ih =
      let R = d.rest net in
      let u : used s'.port ≡ 0 = sym (length-contents s'.port) ∙ ap length k.left in
      let l = length-append w R in
      let R' : d.rest s'.port.net ≡ R = ap d.rest k.same_net in
      let (rec, q, e, r) =
        next-receives f need s' k.valid (omega arith) (omega (arith, ap length R')) in
      let st : stream d q ≡ R = r.same ∙ ap (λ z. z ++ d.rest s'.port.net) k.left ∙ R' in
      let n' = n - length w in
      let some = r.some_read in
      let behind : contents q ≡ rec = r.behind ∙ ap (λ z. z ++ rec) k.left in
      let arrives : Arrives f n' (record s' { port = q }) = record {
        valid = r.valid;
        during = k.during;
        size = k.missing;
        some_missing = omega arith;
        enough = omega (arith, ap length st);
        rounds = omega (arith, ap length behind);
      } in
      let t : take n (w ++ R) ≡ w ++ take n' R = take-append_ge n n' w R (omega arith) in
      let dr : drop n (w ++ R) ≡ drop n' R = drop-append_ge n n' w R (omega arith) in
      let i = ih (record s' { port = q }) arrives in
      let o = wait f (keeper ends_file) (record s' { port = q }) in
      rw (e, t, dr)
        (Ends-after s'.host h w (take n' R) (drop n' R) o k.handed
          (subst (λ z. Ends s'.host (take n' z) (drop n' z) o) st i))

  after_call :
      (f n : ℕ) (h w : Bytes) (net : c.Net) (o : Outcome (Session c Bytes) (Bool × ℕ))
      → n ≤ length (w ++ d.rest net)
      → n + 1 < suc f + min 1 (length w)
      → Continues f (n - length w)
      → Reads h net n w o
      → Ends h (take n (w ++ d.rest net)) (drop n (w ++ d.rest net)) (o then next f)
  after_call f n h w net (done r s') le fuel ih k = elim (Bool-cases (leb n (length w))) [
    | inl t ↦
        let k' = rw t at k in let e = k'.0 in rw e (complete f n h w net s' (ground arith) k'.1)
    | inr t ↦
        let k' = rw t at k in
        let e = k'.0 in
        rw e
          (goes_on f n (file_need (pos (n - length w))) h w net s' (ground arith) le fuel k'.1 ih)
  ]
  after_call f n h w net (failed s') le fuel ih k = elim k [ ]
  after_call f n h w net stuck le fuel ih k = elim k [ ]

  wait-known : (f n : ℕ) → Continues f n
  unfolding wait
  wait-known zero n s a = absurd (omega (arith, a.rounds))
  wait-known (suc f) n s a =
      after_call f n s.host (contents s.port) s.port.net (process_data (keeper ends_file) s)
        a.enough a.rounds (wait-known f (n - length (contents s.port)))
        (process_data-continues n s a.valid a.some_missing a.during a.size)
