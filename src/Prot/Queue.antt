-- ===== src/Prot/Queue.antt =====
-- Bytes taken from the front of the receive buffer, in one piece or two.
use taylor_uucp.Base.{
  ℕ, ◌+◌, ◌-◌, ◌%◌, ◌≤◌, ◌≡◌, refl, sym, ap, ap₂, ◌∙◌, inl, inr, ◌++◌, append-nil, take, drop,
  take-append, drop-append, ltb, if◌then◌else◌, Bool-cases, arith,
}
use taylor_uucp.Prot.{Conn, Port, crecbuflen}
use taylor_uucp.Prot.Room.{window, used, contents, IsValid, length-window}
use taylor_uucp.G.{read_mem}
use taylor_uucp.G.Receive.Parts.Ring.{window-add, window-read_mem}

-- How many of `n` bytes at index `i` lie before the end of the array, as the 't' and 'e' protocols
-- compute it.
abbrev pub first_count : ℕ → ℕ → ℕ
first_count i n = let k = crecbuflen - i in if ltb n k then n else k

module _ {c : Conn} where
  -- The port with `n` bytes taken.
  abbrev pub taken : Port c → ℕ → Port c
  taken p n = record p { prec_start = (p.prec_start + n) % crecbuflen }

  module _ (p : Port c) (n : ℕ) (v : IsValid p) (h : n ≤ used p) where
    contents-split : contents p ≡ window p.prec_buf p.prec_start n ++ contents (taken p n)
    contents-split =
        let rest = used (taken p n) in
        let u : used p ≡ n + rest = omega arith in
        ap (window p.prec_buf p.prec_start) u
        ∙ window-add p.prec_buf p.prec_start n rest ((p.prec_start + n) % crecbuflen) v.start_in
            refl

    pub taken-contents :
        IsValid (taken p n)
        × (used (taken p n) + n ≡ used p)
        × (contents (taken p n) ≡ drop n (contents p))
    taken-contents = (
      omega arith,
      omega arith,
      sym (
          ap (drop n) contents-split
          ∙ drop-append (window p.prec_buf p.prec_start n) (contents (taken p n)) n
              (sym (length-window p.prec_buf p.prec_start n))),
    )

    window-take : window p.prec_buf p.prec_start n ≡ take n (contents p)
    window-take = sym (
        ap (take n) contents-split
        ∙ take-append (window p.prec_buf p.prec_start n) (contents (taken p n)) n
            (sym (length-window p.prec_buf p.prec_start n)))

    pub pieces-take :
        let k = first_count p.prec_start n in
        read_mem p.prec_buf p.prec_start k ++ read_mem p.prec_buf 0 (n - k) ≡ take n (contents p)
    pieces-take = elim (Bool-cases (ltb n (crecbuflen - p.prec_start))) [
      | inl b ↦
          let z : n - n ≡ 0 = omega arith in
          rw (b, z)
            (append-nil _
              ∙ sym (window-read_mem p.prec_buf p.prec_start n (ground arith))
              ∙ window-take)
      | inr b ↦
          let k = crecbuflen - p.prec_start in
          let e : n ≡ k + (n - k) = ground arith in
          rw b (
            ap₂ ◌++◌ (sym (window-read_mem p.prec_buf p.prec_start k (omega arith)))
              (sym (window-read_mem p.prec_buf 0 (n - k) (omega arith)))
            ∙ sym (
                ap (window p.prec_buf p.prec_start) e
                ∙ window-add p.prec_buf p.prec_start k (n - k) 0 v.start_in (omega arith))
            ∙ window-take)
    ]
