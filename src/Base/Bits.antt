-- ===== src/Base/Bits.antt =====
-- `|` and `^` of unsigned numbers, by their binary digits.
use Prim.Native.Nat.{
  ℕ, zero, suc, ◌+◌, ◌*◌, ◌/◌, ◌%◌, ◌^◌, ◌-◌, ◌≤◌, ◌<◌, max, bit_or, bit_xor, differ, digits,
  bit_or-bitwise, bit_xor-bitwise,
}
use mathlib.Core.Path.{◌≡◌, refl, sym, ap, ap₂, ◌∙◌}
use native.Mathlib.Nat.{pow-suc}
use native.Mathlib.Omega.{arith}

-- An operation on two digits of which 0 on the left is a unit.
module _ (f : ℕ → ℕ → ℕ) (unit : (d : ℕ) → f 0 d ≡ d) where
  abbrev counted : ℕ → ℕ → ℕ → ℕ
  counted = digits (λ d. d) f

  abbrev joined : ℕ → ℕ → ℕ
  joined a b = counted a a b

  counted-zero : (count b : ℕ) → counted count 0 b ≡ b
  counted-zero zero b = refl
  counted-zero (suc count) b = refl

  -- Digits to go that the number does not have change nothing.
  counted_spare :
      (count spare a b : ℕ) → a ≤ count → counted (count + spare) a b ≡ counted count a b
  counted_spare count spare zero b h = counted-zero (count + spare) b ∙ sym (counted-zero count b)
  counted_spare zero spare (suc a) b h = absurd (omega arith)
  counted_spare (suc count) spare (suc a) b h =
      let more : suc count + spare ≡ suc (count + spare) = omega arith in
      rw more (
        ap (λ high. high * 2 + f (suc a % 2) (b % 2))
          (counted_spare count spare (suc a / 2) (b / 2) (omega arith)))

  joined_digit : (a b : ℕ) → joined a b ≡ joined (a / 2) (b / 2) * 2 + f (a % 2) (b % 2)
  joined_digit zero b = omega (arith, unit (b % 2))
  joined_digit (suc a) b =
      let half = suc a / 2 in
      let count : a ≡ half + (a - half) = omega arith in
      ap (λ high. high * 2 + f (suc a % 2) (b % 2))
        (ap (λ n. counted n half (b / 2)) count
          ∙ counted_spare half (a - half) half (b / 2) (omega arith))

  -- The lowest digits apart.
  joined-pair :
      (x y c d : ℕ) → c < 2 → d < 2 → joined (x * 2 + c) (y * 2 + d) ≡ joined x y * 2 + f c d
  joined-pair x y c d hc hd =
      let (x', c') : ((x * 2 + c) / 2 ≡ x) × ((x * 2 + c) % 2 ≡ c) = omega arith in
      let (y', d') : ((y * 2 + d) / 2 ≡ y) × ((y * 2 + d) % 2 ≡ d) = omega arith in
      joined_digit (x * 2 + c) (y * 2 + d)
      ∙ ap₂ (λ high low. high * 2 + low) (ap₂ joined x' y') (ap₂ f c' d')

max_unit : (d : ℕ) → max 0 d ≡ d
max_unit d = omega arith

bit_or-pair :
    (x y c d : ℕ) → c < 2 → d < 2 → bit_or (x * 2 + c) (y * 2 + d) ≡ bit_or x y * 2 + max c d
bit_or-pair x y c d hc hd = simp bit_or-bitwise (joined-pair max max_unit x y c d hc hd)

bit_xor-pair :
    (x y c d : ℕ) → c < 2 → d < 2 → bit_xor (x * 2 + c) (y * 2 + d) ≡ bit_xor x y * 2 + differ c d
bit_xor-pair x y c d hc hd = simp bit_xor-bitwise (joined-pair differ (λ e. refl) x y c d hc hd)

-- Nothing is added.
bit_or_nothing : (bound q : ℕ) → q ≤ bound → bit_or q 0 ≡ q
bit_or_nothing bound zero h = refl
bit_or_nothing zero (suc q) h = absurd (omega arith)
bit_or_nothing (suc bound) (suc q) h =
    let half = suc q / 2 in
    let whole : suc q ≡ half * 2 + suc q % 2 = omega arith in
    let low : bit_or (half * 2 + suc q % 2) 0 ≡ half * 2 + suc q % 2 =
      bit_or-pair half 0 (suc q % 2) 0 (omega arith) (omega arith)
      ∙ ap₂ (λ high d. high * 2 + d) (bit_or_nothing bound half (omega arith)) (omega arith) in
    ap (λ n. bit_or n 0) whole ∙ low ∙ sym whole

-- A field above `k` low bits and one within them are added.
pub bit_or_fields : (k q r : ℕ) → r < 2 ^ k → bit_or (q * 2 ^ k) r ≡ q * 2 ^ k + r
bit_or_fields zero q r h =
    let one : q * 2 ^ 0 ≡ q = omega arith in
    let none : r ≡ 0 = omega arith in
    ap₂ bit_or one none ∙ bit_or_nothing q q (omega arith) ∙ omega arith
bit_or_fields (suc k) q r h =
    let left : q * 2 ^ suc k ≡ q * 2 ^ k * 2 + 0 = ap (λ n. q * n) (pow-suc 2 k) ∙ omega arith in
    let right : r ≡ r / 2 * 2 + r % 2 = omega arith in
    ap₂ bit_or left right
    ∙ bit_or-pair (q * 2 ^ k) (r / 2) 0 (r % 2) (omega arith) (omega arith)
    ∙ omega (arith, bit_or_fields k q (r / 2) (omega (arith, pow-suc 2 k)), left)

-- A digit.
data Digit : ℕ → Type 0 where
  off : Digit 0
  on : Digit 1

to-Digit : (n : ℕ) → n < 2 → Digit n
to-Digit zero h = off
to-Digit (suc zero) h = on
to-Digit (suc (suc n)) h = absurd (omega arith)

differ_back : {c d : ℕ} → Digit c → Digit d → (differ (differ c d) d ≡ c) × (differ c d < 2)
differ_back off off = (refl, omega arith)
differ_back off on = (refl, omega arith)
differ_back on off = (refl, omega arith)
differ_back on on = (refl, omega arith)

-- Within `k` bits, `^` stays there and undoes itself.
bit_xor_within :
    (k a b : ℕ) → a < 2 ^ k → b < 2 ^ k → (bit_xor (bit_xor a b) b ≡ a) × (bit_xor a b < 2 ^ k)
bit_xor_within zero zero zero h l = (refl, omega arith)
bit_xor_within zero (suc a) b h l = absurd (omega arith)
bit_xor_within zero zero (suc b) h l = absurd (omega arith)
bit_xor_within (suc k) a b h l =
    let (back, bound) =
      bit_xor_within k (a / 2) (b / 2) (omega (arith, pow-suc 2 k)) (omega (arith, pow-suc 2 k)) in
    let (back', bound') =
      differ_back (to-Digit (a % 2) (omega arith)) (to-Digit (b % 2) (omega arith)) in
    let high = bit_xor (a / 2) (b / 2) in
    let low = differ (a % 2) (b % 2) in
    let a' : a ≡ a / 2 * 2 + a % 2 = omega arith in
    let b' : b ≡ b / 2 * 2 + b % 2 = omega arith in
    let once : bit_xor a b ≡ high * 2 + low =
      ap₂ bit_xor a' b'
      ∙ bit_xor-pair (a / 2) (b / 2) (a % 2) (b % 2) (omega arith) (omega arith) in
    let twice : bit_xor (high * 2 + low) b ≡ bit_xor high (b / 2) * 2 + differ low (b % 2) =
      ap (bit_xor (high * 2 + low)) b'
      ∙ bit_xor-pair high (b / 2) low (b % 2) bound' (omega arith) in
    (
      ap (λ n. bit_xor n b) once ∙ twice ∙ ap₂ (λ m n. m * 2 + n) back back' ∙ sym a',
      omega (arith, once, bound, bound', pow-suc 2 k),
    )

pub bit_xor_cancel : (k : ℕ) {a b : ℕ} → a < 2 ^ k → b < 2 ^ k → bit_xor (bit_xor a b) b ≡ a
bit_xor_cancel k {a} {b} h l = (bit_xor_within k a b h l).0

pub bit_xor-lt : (k : ℕ) {a b : ℕ} → a < 2 ^ k → b < 2 ^ k → bit_xor a b < 2 ^ k
bit_xor-lt k {a} {b} h l = (bit_xor_within k a b h l).1
