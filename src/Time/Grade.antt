-- ===== src/Time/Grade.antt =====
-- uuconf/grdcmp.c: the order in which grades of work are executed.
use Prim.Native.Nat.{compare, Ordering}
use taylor_uucp.Base.{ℕ, ◌-◌, ◌%◌, ◌≡◌, Bool, true, ◌||◌, not, if◌then◌else◌, arith}
use taylor_uucp.Base.Ctype.{is_digit, is_upper, is_lower}

-- `uuconf_grade_cmp`, and what its result says: before, the same, or after.
pub grade_cmp : ℕ → ℕ → Ordering
grade_cmp arg1 arg2 =
    let b1 = arg1 % 256 in
    let b2 = arg2 % 256 in
    if is_digit b1
    then (if is_digit b2 then compare b1 b2 else Ordering.lt)
    else if is_upper b1
    then (if is_digit b2 then Ordering.gt else if is_upper b2 then compare b1 b2 else Ordering.lt)
    else if not (is_lower b2)
    then Ordering.gt
    else compare b1 b2

-- `UUCONF_GRADE_LEGAL`.
abbrev pub is_grade : ℕ → Bool
is_grade b = is_digit b || is_upper b || is_lower b

-- The place of a grade among `0` to `9`, `A` to `Z`, `a` to `z`.
abbrev pub rank : ℕ → ℕ
rank b = if is_digit b then b - 48 else if is_upper b then b - 55 else b - 61

-- On two legal grades `uuconf_grade_cmp` is the comparison of their places in the sequence of the
-- digits, the upper case letters and the lower case letters.
pub grade_cmp-rank :
    (a b : ℕ) → is_grade a ≡ true → is_grade b ≡ true → grade_cmp a b ≡ compare (rank a) (rank b)
unfolding grade_cmp
grade_cmp-rank a b h k =
    let ea : a % 256 ≡ a = ground arith in
    let eb : b % 256 ≡ b = ground arith in rw (ea, eb) (ground arith)
