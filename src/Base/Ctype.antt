-- ===== src/Base/Ctype.antt =====
-- The tests of <ctype.h> on characters of ASCII, and comparisons of strings without regard to
-- case.
use mathlib.Core.Bool.{Bool, true, false, ◌&&◌, ◌||◌}
use mathlib.Core.List.{[], ◌∷◌}
use Prim.Native.Nat.{ℕ, ◌+◌}
use taylor_uucp.Base.Tests.{leb, ltb, ◌==◌, if◌then◌else◌}
use taylor_uucp.Base.Lists.{Bytes}

abbrev pub is_digit : ℕ → Bool
is_digit c = leb b'0' c && leb c b'9'

abbrev pub is_upper : ℕ → Bool
is_upper c = leb b'A' c && leb c b'Z'

abbrev pub is_lower : ℕ → Bool
is_lower c = leb b'a' c && leb c b'z'

abbrev pub is_alpha : ℕ → Bool
is_alpha c = is_upper c || is_lower c

-- A character that prints, other than a space.
abbrev pub is_graph : ℕ → Bool
is_graph c = ltb 32 c && ltb c 127

abbrev pub to_lower : ℕ → ℕ
to_lower c = if is_upper c then c + 32 else c

-- `strcasecmp (a, b) == 0`.
unfoldable pub same_letters : Bytes → Bytes → Bool
same_letters [] [] = true
same_letters (x ∷ a) (y ∷ b) = to_lower x == to_lower y && same_letters a b
same_letters a b = false

-- `strncasecmp (z, name, strlen (name)) == 0`.
unfoldable pub starts_with : Bytes → Bytes → Bool
starts_with z [] = true
starts_with [] (y ∷ name) = false
starts_with (x ∷ z) (y ∷ name) = to_lower x == to_lower y && starts_with z name

-- The test of the first character, 0 at the end of the string.
abbrev pub head_char : Bytes → ℕ
head_char [] = 0
head_char (c ∷ z) = c
