-- ===== src/F/Append.antt =====
-- The decoding loop of `ffprocess_data` on two pieces of file data, one behind the other.
use taylor_uucp.Base.{
  ℕ, ◌+◌, ◌%◌, ◌^◌, ◌≡◌, refl, sym, ap, ◌∙◌, true, false, [], ◌∷◌, ◌++◌, Bytes, length, arith,
}
use taylor_uucp.F.{add_check}
use taylor_uucp.F.Decode.{
  Char, illegal, illegal_pair, special, byte, finish, classify, Scan, scan, count_one, put_byte,
}

-- A scan behind bytes that have been read.
abbrev pub prefix : ℕ → Bytes → Scan → Scan
prefix n z r = record r { out = z ++ r.out; used = n + r.used }

-- A step of the loop.
abbrev after : Char → ℕ → ℕ → Bytes → Scan
after illegal sp chk z = count_one (scan sp chk z)
after illegal_pair sp chk z = count_one (scan 0 chk z)
after (special b) sp chk z = count_one (scan b chk z)
after (byte n) sp chk z = put_byte n (scan 0 (add_check chk n) z)
after finish sp chk z = record { out = []; used = 1; special_last = sp; check = chk; ended = true }

scan-after :
    (c : Char) (sp chk x : ℕ) (z : Bytes)
    → classify sp (x % 2 ^ 7) ≡ c
    → scan sp chk (x ∷ z) ≡ after c sp chk z
unfolding scan
scan-after illegal sp chk x z e = rw (scan, e)
scan-after illegal_pair sp chk x z e = rw (scan, e)
scan-after (special b) sp chk x z e = rw (scan, e)
scan-after (byte n) sp chk x z e = rw (scan, e)
scan-after finish sp chk x z e = rw (scan, e)

abbrev cons_byte : ℕ → Scan → Scan
cons_byte n r = record r { out = n % 2 ^ 8 ∷ r.out }

longer :
    (u : ℕ) (z : Bytes) (r' : Scan) {r : Scan}
    → r ≡ prefix u z r'
    → count_one r ≡ prefix (u + 1) z r'
longer u z r' {r} e =
    ap count_one e ∙ ap (λ n. record r' { out = z ++ r'.out; used = n }) (omega arith)

-- What is read before `b` and what is read of it.
abbrev pub Joins : Bytes → Bytes → ℕ → ℕ → Type 0
Joins a b sp chk =
    let r = scan sp chk a in
    scan sp chk (a ++ b) ≡ prefix r.used r.out (scan r.special_last r.check b)

module _ (a b : Bytes) (sp chk : ℕ)
    (ih : (sp chk : ℕ) → (scan sp chk a).ended ≡ false → Joins a b sp chk) where
  after-append :
      (c : Char)
      → (after c sp chk a).ended ≡ false
      → let r = after c sp chk a in
        after c sp chk (a ++ b) ≡ prefix r.used r.out (scan r.special_last r.check b)
  after-append illegal e =
      let r = scan sp chk a in longer r.used r.out (scan r.special_last r.check b) (ih sp chk e)
  after-append illegal_pair e =
      let r = scan 0 chk a in longer r.used r.out (scan r.special_last r.check b) (ih 0 chk e)
  after-append (special c) e =
      let r = scan c chk a in longer r.used r.out (scan r.special_last r.check b) (ih c chk e)
  after-append (byte n) e = ap (cons_byte n) (
      let r = scan 0 (add_check chk n) a in
      longer r.used r.out (scan r.special_last r.check b) (ih 0 (add_check chk n) e))
  after-append finish e = absurd (ground (arith, e))

-- Where the first of two pieces of file data does not end the file, the decoding loop of
-- `ffprocess_data` on both in one run gives what it gives on the first and then, with the special
-- character and the checksum that are left over, on the second: the same bytes, count, special
-- character, checksum and end.
pub scan-append : (a b : Bytes) (sp chk : ℕ) → (scan sp chk a).ended ≡ false → Joins a b sp chk
scan-append [] b sp chk e =
    unfold scan in let r = scan sp chk b in ap (λ u. record r { used = u }) (omega arith)
scan-append (x ∷ a) b sp chk e =
    go (λ sp' chk' e'. scan-append a b sp' chk' e') (classify sp (x % 2 ^ 7)) refl e
  where
    go :
        ((sp chk : ℕ) → (scan sp chk a).ended ≡ false → Joins a b sp chk)
        → (c : Char) → classify sp (x % 2 ^ 7) ≡ c
        → (scan sp chk (x ∷ a)).ended ≡ false
        → Joins (x ∷ a) b sp chk
    go ih c d e =
        rw (scan-after c sp chk x a d, scan-after c sp chk x (a ++ b) d)
          (after-append a b sp chk ih c (ap Scan.ended (sym (scan-after c sp chk x a d)) ∙ e))

-- What has ended stays so.
after-ended :
    (a b : Bytes)
    → ((sp chk : ℕ) → (scan sp chk (a ++ b)).ended ≡ false → (scan sp chk a).ended ≡ false)
    → (c : Char) (sp chk : ℕ) → (after c sp chk (a ++ b)).ended ≡ false
    → (after c sp chk a).ended ≡ false
after-ended a b ih illegal sp chk e = ih sp chk e
after-ended a b ih illegal_pair sp chk e = ih 0 chk e
after-ended a b ih (special c) sp chk e = ih c chk e
after-ended a b ih (byte n) sp chk e = ih 0 (add_check chk n) e
after-ended a b ih finish sp chk e = e

pub scan-ended :
    (a b : Bytes) (sp chk : ℕ)
    → (scan sp chk (a ++ b)).ended ≡ false
    → (scan sp chk a).ended ≡ false
scan-ended [] b sp chk e = unfold scan in refl
scan-ended (x ∷ a) b sp chk e =
    let c = classify sp (x % 2 ^ 7) in
    ap Scan.ended (scan-after c sp chk x a refl)
    ∙ after-ended a b (λ sp' chk' e'. scan-ended a b sp' chk' e') c sp chk
        (ap Scan.ended (sym (scan-after c sp chk x (a ++ b) refl)) ∙ e)

-- All is used up unless the file ends.
after-used :
    (a : Bytes)
    → ((sp chk : ℕ) → (scan sp chk a).ended ≡ false → (scan sp chk a).used ≡ length a)
    → (c : Char) (sp chk : ℕ) → (after c sp chk a).ended ≡ false
    → (after c sp chk a).used ≡ length a + 1
after-used a ih illegal sp chk e = ap (λ n. n + 1) (ih sp chk e)
after-used a ih illegal_pair sp chk e = ap (λ n. n + 1) (ih 0 chk e)
after-used a ih (special c) sp chk e = ap (λ n. n + 1) (ih c chk e)
after-used a ih (byte n) sp chk e = ap (λ n. n + 1) (ih 0 (add_check chk n) e)
after-used a ih finish sp chk e = absurd (ground (arith, e))

pub scan-used :
    (a : Bytes) (sp chk : ℕ) → (scan sp chk a).ended ≡ false → (scan sp chk a).used ≡ length a
scan-used [] sp chk e = unfold scan in refl
scan-used (x ∷ a) sp chk e =
    let c = classify sp (x % 2 ^ 7) in
    let s = scan-after c sp chk x a refl in
    ap Scan.used s
    ∙ after-used a (λ sp' chk' e'. scan-used a sp' chk' e') c sp chk (ap Scan.ended (sym s) ∙ e)
    ∙ omega arith
