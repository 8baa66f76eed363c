-- ===== src/Command/Spool/Read.antt =====
-- What `fparse_cmd` makes of a line whose fields are words.
use taylor_uucp.Base.{ℕ, ◌≡◌, refl, true, false, some, [], ◌∷◌, ◌++◌, Bytes, codes, ◌==◌, arith}
use taylor_uucp.Command.{Cmd, blank, has_char, parse_fields, parse_rest, parse_cmd}
use taylor_uucp.Command.Spool.{fields_line}
use taylor_uucp.Command.Token.{is_separator, IsWord, Plain, token-append}

-- The four fields of every line.
abbrev pub with_fields : ℕ → Bytes → Bytes → Bytes → Bytes → Cmd
with_fields b from to user options = record (blank b) {
  from = some from;
  to = some to;
  user = some user;
  options = some options;
}

module _ (from to user options : Bytes) (hf : IsWord from) (ht : IsWord to) (hu : IsWord user)
    (ho : Plain options) where
  parse_fields-words :
      (b d : ℕ) (z : Bytes)
      → is_separator d ≡ true
      → parse_fields b (from ++ 32 ∷ (to ++ 32 ∷ (user ++ 32 ∷ ((b'-' ∷ options) ++ d ∷ z))))
        ≡ parse_rest b z (with_fields b from to user options)
  unfolding parse_fields
  parse_fields-words b d z e =
      rw
        (
          token-append from 32 (to ++ 32 ∷ (user ++ 32 ∷ ((b'-' ∷ options) ++ d ∷ z))) hf refl,
          token-append to 32 (user ++ 32 ∷ ((b'-' ∷ options) ++ d ∷ z)) ht refl,
          token-append user 32 ((b'-' ∷ options) ++ d ∷ z) hu refl,
          token-append (b'-' ∷ options) d z (refl, ho) e,
        )
        refl

  pub parse_cmd-words :
      (b d : ℕ) (z : Bytes)
      → has_char b (codes "SRXE") ≡ true
      → is_separator d ≡ true
      → parse_cmd (fields_line b from to user options (d ∷ z))
        ≡ parse_rest b z (with_fields b from to user options)
  unfolding parse_cmd
  parse_cmd-words b d z h e =
      let s : is_separator b ≡ false = ground arith in
      let k : has_char b (codes "SRXEHP") ≡ true = ground arith in
      let l : (b == b'H') ≡ false = ground arith in
      let m : (b == b'P') ≡ false = ground arith in
      rw
        (
          token-append (b ∷ []) 32
              (from ++ 32 ∷ (to ++ 32 ∷ (user ++ 32 ∷ ((b'-' ∷ options) ++ d ∷ z)))) (s, tt) refl,
          k,
          l,
          m,
        )
        (parse_fields-words b d z e)
