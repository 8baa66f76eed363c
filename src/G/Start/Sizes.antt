-- ===== src/G/Start/Sizes.antt =====
-- The sizes that the handshake of protg.c settles.
use taylor_uucp.Base.{
  ℕ, zero, suc, ◌+◌, ◌-◌, ◌*◌, ◌/◌, ◌^◌, ◌≤◌, ◌<◌, ◌≡◌, inl, inr, refl, sym, ap, ◌∙◌, ◌&&◌, true,
  false, if◌then◌else◌, ltb, leb, Bool-cases, arith,
}
use native.Mathlib.Nat.{pow-suc}
use taylor_uucp.G.Send.Place.Fit.{lt_of_pow-lt}
use taylor_uucp.G.Start.{halvings, segment_index, sizes}

halvings-zero : (f : ℕ) → halvings f 0 ≡ 0
unfolding halvings
halvings-zero zero = refl
halvings-zero (suc f) = refl

-- The number lies between two powers of two.
halvings-pow :
    (f i : ℕ)
    → i ≤ f
    → 0 < i
    → (0 < halvings f i) × (2 ^ halvings f i ≤ 2 * i) × (i < 2 ^ halvings f i)
unfolding halvings
halvings-pow zero i h k = absurd (omega arith)
halvings-pow (suc f) i h k =
    let t : ltb 0 i ≡ true = ground arith in
    let n = halvings f (i / 2) in
    let two : 2 ^ (n + 1) ≡ 2 * 2 ^ n = ap (λ e. 2 ^ e) (omega arith) ∙ pow-suc 2 n ∙ omega arith in
    rw t (elim (Bool-cases (ltb 0 (i / 2))) [
      | inl p ↦
          let ih = halvings-pow f (i / 2) (omega arith) (ground arith) in omega (arith, ih, two)
      | inr p ↦
          let half : i / 2 ≡ 0 = ground arith in
          let none : n ≡ 0 = ap (halvings f) half ∙ halvings-zero f in
          let one : 2 ^ n ≡ 1 = ap (λ e. 2 ^ e) none in omega (arith, two, one)
    ])

-- The count for a packet size.
halvings-bounds :
    (i : ℕ)
    → 32 ≤ i
    → i < 2 ^ 13
    → let n = halvings (i + 1) i in (6 ≤ n) × (n ≤ 13) × (2 ^ (n - 1) ≤ i) × (i < 2 ^ n)
halvings-bounds i h k =
    let n = halvings (i + 1) i in
    let (pos, low, high) = halvings-pow (i + 1) i (omega arith) (omega arith) in
    let above : 5 < n = lt_of_pow-lt 5 n (omega arith) in
    let below : n < 14 = lt_of_pow-lt n 14 (omega arith) in
    let m : suc (n - 1) ≡ n = omega arith in
    let two : 2 ^ n ≡ 2 ^ (n - 1) * 2 = ap (λ e. 2 ^ e) (sym m) ∙ pow-suc 2 (n - 1) in
    omega (arith, above, below, low, high, two)

-- For a requested packet size from 32 to 8191, the halving loop of `fgstart` finds the segment
-- size that it passes to the other side: at most 7, and such that the packet size is at least
-- 2^(segment size + 5) and below the next power of two.
pub segment_index_lem :
    (packsize : ℕ)
    → 32 ≤ packsize
    → packsize < 2 ^ 13
    → (segment_index packsize ≤ 7)
      × (2 ^ (segment_index packsize + 5) ≤ packsize)
      × (packsize < 2 ^ (segment_index packsize + 6))
unfolding segment_index
segment_index_lem packsize h k =
    let n = halvings (packsize + 1) packsize in
    let (low, high, p, q) = halvings-bounds packsize h k in
    let t : ltb n 6 ≡ false = ground arith in
    let u : ltb 13 n ≡ false = ground arith in
    let a : n - 6 + 5 ≡ n - 1 = omega arith in
    let b : n - 6 + 6 ≡ n = omega arith in rw (t, u, a, b) (omega arith, p, q)

-- Whatever window and packet size the user forces, where the window and segment size that the
-- other side has sent are below 8, `fgstart` settles on a window of at most 7, a segment size of
-- at most 7 and a packet size of 2^(segment size + 5), which are the conditions under which
-- `fgsenddata` lays out a packet.
pub sizes_lem :
    (forced_winsize forced_packsize winsize segsize : ℕ)
    → winsize < 8
    → segsize < 8
    → let r = sizes forced_winsize forced_packsize winsize segsize in
      (r.0 ≤ 7) × (r.1 ≤ 7) × (r.2 ≡ 2 ^ (r.1 + 1 + 4))
unfolding sizes
sizes_lem forced_winsize forced_packsize winsize segsize hw hs =
    let w : (if ltb 0 forced_winsize && leb forced_winsize 7 then forced_winsize else winsize) ≤ 7 =
      ground arith in
    let exp : segsize + 5 ≡ segsize + 1 + 4 = omega arith in
    elim (Bool-cases (leb 32 forced_packsize && leb forced_packsize 4096)) [
      | inr t ↦ rw t (w, omega arith, ap (λ e. 2 ^ e) exp)
      | inl t ↦
          let n = halvings (forced_packsize + 1) forced_packsize in
          let b = halvings-bounds forced_packsize (ground arith) (ground arith) in
          let e : n - 1 ≡ n - 6 + 1 + 4 = omega (arith, b) in
          rw t (w, omega (arith, b), ap (λ e. 2 ^ e) e)
    ]
