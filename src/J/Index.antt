-- ===== src/J/Index.antt =====
-- A byte that is sent changed is printable, and its index says where and how it was changed.
use taylor_uucp.Base.{
  ℕ, zero, suc, ◌≤◌, ◌<◌, ◌≡◌, refl, sym, Bool, true, false, not, Option, none, some, ◌&&◌, ◌||◌,
  leb, ◌==◌, arith,
}
use mathlib.Core.Bool.{false≢true}
use taylor_uucp.J.{change, put_index, get_index, undo, imaxpacksize}

-- A printable character.
abbrev pub printable : ℕ → Bool
printable b = leb 32 b && leb b 126

pub record IsPrintable (b : ℕ) : Type 0 where
  pub low : 32 ≤ b
  pub high : b ≤ 126

all_below : ℕ → (ℕ → Bool) → Bool
all_below zero p = true
all_below (suc n) p = p n && all_below n p

all_below-true : (n : ℕ) (p : ℕ → Bool) (x : ℕ) → all_below n p ≡ true → x < n → p x ≡ true
unfolding all_below
all_below-true zero p x h lt = absurd (omega arith)
all_below-true (suc n) p x h lt = ground (arith, all_below-true n p x)

-- The change of a byte that is not printable can be undone, and is one at least.
changes_well : ℕ → Bool
changes_well b =
    let ch = change b in
    printable b || (printable ch.byte && (undo ch.byte ch.f128 ch.f32 == b && (ch.f128 || ch.f32)))

all_change_well : all_below 256 changes_well ≡ true
unfolding all_below changes_well
all_change_well = refl

and-true : (p q : Bool) → (p && q) ≡ true → (p ≡ true) × (q ≡ true)
and-true true true h = (refl, refl)
and-true true false h = absurd (false≢true h)
and-true false q h = absurd (false≢true h)

or-true : (p q : Bool) → (p || q) ≡ true → p ≡ false → q ≡ true
or-true true q h e = absurd (false≢true (sym e))
or-true false q h e = h

eqb : (x y : ℕ) → (x == y) ≡ true → x ≡ y
eqb x y h = ground arith

pub printable-IsPrintable : (b : ℕ) → printable b ≡ true → IsPrintable b
printable-IsPrintable b h =
    let (l, r) = and-true (leb 32 b) (leb b 126) h in
    record { low = ground arith; high = ground arith }

pub change_lem :
    (b : ℕ)
    → b < 256
    → printable b ≡ false
    → let ch = change b in
      IsPrintable ch.byte × (undo ch.byte ch.f128 ch.f32 ≡ b) × ((ch.f128 || ch.f32) ≡ true)
unfolding changes_well
change_lem b h p =
    let ch = change b in
    let k = or-true (printable b) _ (all_below-true 256 changes_well b all_change_well h) p in
    let (k₁, k₂) =
      and-true (printable ch.byte) (undo ch.byte ch.f128 ch.f32 == b && (ch.f128 || ch.f32)) k in
    let (k₃, k₄) = and-true (undo ch.byte ch.f128 ch.f32 == b) (ch.f128 || ch.f32) k₂ in
    (printable-IsPrintable ch.byte k₁, eqb _ b k₃, k₄)

abbrev same : Bool → Bool → Bool
same true p = p
same false p = not p

same-eq : (p q : Bool) → same p q ≡ true → q ≡ p
same-eq true true h = refl
same-eq true false h = absurd (false≢true h)
same-eq false true h = absurd (false≢true h)
same-eq false false h = refl

-- The index is read as the position and the operations.
abbrev is_index : ℕ → Bool → Bool → Option (ℕ × Bool × Bool) → Bool
is_index i f128 f32 none = false
is_index i f128 f32 (some r) = r.0 == i && (same f128 r.1 && same f32 r.2)

is_index-eq :
    (i : ℕ) (f128 f32 : Bool) (r : Option (ℕ × Bool × Bool))
    → is_index i f128 f32 r ≡ true
    → r ≡ some (i, f128, f32)
is_index-eq i f128 f32 none h = absurd (false≢true h)
is_index-eq i f128 f32 (some (j, x, y)) h =
    let (h₁, h₂) = and-true (j == i) (same f128 x && same f32 y) h in
    let (h₃, h₄) = and-true (same f128 x) (same f32 y) h₂ in
    rw (eqb j i h₁, same-eq f128 x h₃, same-eq f32 y h₄) refl

-- The index of a position is printable and is read back.
indexes_well : Bool → Bool → ℕ → Bool
indexes_well f128 f32 i =
    let at = put_index i f128 f32 in
    printable at.0 && (printable at.1 && is_index i f128 f32 (get_index at.0 at.1))

index_128 : all_below 3008 (indexes_well true false) ≡ true
unfolding all_below indexes_well get_index
index_128 = refl

index_32 : all_below 3008 (indexes_well false true) ≡ true
unfolding all_below indexes_well get_index
index_32 = refl

index_both : all_below 3008 (indexes_well true true) ≡ true
unfolding all_below indexes_well get_index
index_both = refl

index_all : (f128 f32 : Bool) → (f128 || f32) ≡ true → all_below 3008 (indexes_well f128 f32) ≡ true
index_all true false h = index_128
index_all false true h = index_32
index_all true true h = index_both
index_all false false h = absurd (false≢true h)

pub put_index_lem :
    (i : ℕ) (f128 f32 : Bool)
    → i ≤ imaxpacksize
    → (f128 || f32) ≡ true
    → let at = put_index i f128 f32 in
      IsPrintable at.0 × IsPrintable at.1 × (get_index at.0 at.1 ≡ some (i, f128, f32))
unfolding indexes_well
put_index_lem i f128 f32 h k =
    let at = put_index i f128 f32 in
    let w = all_below-true 3008 (indexes_well f128 f32) i (index_all f128 f32 k) (omega arith) in
    let (w₁, w₂) = and-true (printable at.0) _ w in
    let (w₃, w₄) = and-true (printable at.1) _ w₂ in
    (
      printable-IsPrintable at.0 w₁,
      printable-IsPrintable at.1 w₃,
      is_index-eq i f128 f32 (get_index at.0 at.1) w₄,
    )
