-- ===== src/Command.antt =====
-- lib/parse.c and lib/quote.c: the commands of a work file, as strings and as structures, and the
-- lines that unix/splcmd.c writes for them.
pub mod Escape
pub mod Number
pub mod Spool
pub mod Token
use taylor_uucp.Base.{
  ℕ, ◌+◌, Bool, true, false, not, ◌&&◌, ◌||◌, Option, none, some, [], ◌∷◌, ◌++◌, Bytes, codes,
  length, ◌==◌, ◌!=◌, if◌then◌else◌, ◌>>=◌,
}
use taylor_uucp.Base.Ctype.{head_char}
use Escape.{escape, quote_string, until_zero}
use Number.{ℤ, pos, negsuc, minus_one, strtol, to_int, octal}
use Token.{is_separator, token}

-- `struct scmd`. A string is `none` where it is NULL; `pseq` is a handle of the system layer.
pub record Cmd : Type 0 where
  pub bcmd : ℕ
  pub bgrade : ℕ
  pub pseq : Option ℕ
  pub from : Option Bytes
  pub to : Option Bytes
  pub user : Option Bytes
  pub options : Option Bytes
  pub temp : Option Bytes
  pub mode : ℤ
  pub notify : Option Bytes
  pub bytes : ℤ
  pub cmd : Option Bytes
  pub ipos : ℤ

-- The fields that `fparse_cmd` starts from.
abbrev pub blank : ℕ → Cmd
blank b = record {
  bcmd = b;
  bgrade = 0;
  pseq = none;
  from = none;
  to = none;
  user = none;
  options = none;
  temp = none;
  mode = pos 0o666;
  notify = none;
  bytes = minus_one;
  cmd = none;
  ipos = pos 0;
}

-- `strchr (z, c) != NULL`.
abbrev pub has_char : ℕ → Bytes → Bool
has_char c [] = false
has_char c (d ∷ z) = d == c || has_char c z

abbrev pub map_string : (Bytes → Bytes) → Option Bytes → Option Bytes
map_string f none = none
map_string f (some z) = some (f z)

-- A string that `cescape` rewrites in place.
abbrev pub unquoted : Bytes → Bytes
unquoted z = until_zero (escape z)

-- `ulunquote_cmd`.
pub unquote_cmd : Cmd → Cmd
unfolding escape
unquote_cmd c = elim c.options [
  | none ↦ c
  | some o ↦
      if has_char b'q' o
      then record c {
        from = map_string unquoted c.from;
        to = map_string unquoted c.to;
        user = map_string unquoted c.user;
        notify = map_string unquoted c.notify;
        cmd = map_string unquoted c.cmd;
      }
      else c
]

-- `strcmp (a, b) == 0`.
unfoldable pub same_string : Bytes → Bytes → Bool
same_string [] [] = true
same_string (x ∷ a) (y ∷ b) = x == y && same_string a b
same_string a b = false

-- A number that `strtol` has read, or a default if something follows it.
abbrev pub if_whole : ℤ → ℤ × Bytes → ℤ
if_whole default (n, []) = n
if_whole default (n, _ ∷ _) = default

pub whole_number : ℤ → Bytes → ℤ
whole_number default z = if_whole default (strtol z)

-- A hangup command.
pub parse_hangup : Bytes → Option Cmd
parse_hangup (b ∷ []) = some (blank b)
parse_hangup (b ∷ c ∷ z) =
    if c == b'Y' then some (blank b'Y') else if c == b'N' then some (blank b'N') else none
parse_hangup [] = none

-- The position at which to start, which SVR4 sends in the fourth field from here.
pub restart_at : Bytes → Cmd → Cmd
restart_at z c =
    let t = (do (_, z₁) ← token z; (_, z₂) ← token z₁; (_, z₃) ← token z₂; token z₃) in
    elim t [ none ↦ c | some (p, _) ↦ record c { ipos = whole_number (pos 0) p } ]

-- What may follow the options of a request to receive.
pub parse_receive : Bytes → Cmd → Cmd
unfolding same_string whole_number restart_at
parse_receive z c = elim (token z) [
  | none ↦ c
  | some (t, z') ↦
      if same_string t (codes "dummy")
      then restart_at z' c
      else record c { bytes = whole_number minus_one t }
]

-- `imode`: a mode of 666 or 777 is meant to be octal.
abbrev pub adjust_mode : ℤ → ℤ
adjust_mode (negsuc n) = negsuc n
adjust_mode (pos n) = if n == 666 then pos 0o666 else if n == 777 then pos 0o777 else pos n

-- The string up to its end of line.
abbrev pub until_newline : Bytes → Bytes
until_newline [] = []
until_newline (c ∷ z) = let rest = until_newline z in if c == 10 then [] else c ∷ rest

-- `strtok ((char *) NULL, "")`, up to the end of the line.
abbrev pub line_rest : Bytes → Option Bytes
line_rest [] = none
line_rest (c ∷ z) = some (until_newline (c ∷ z))

-- The size and the command, where there is a notify string.
pub parse_size : Bytes → Cmd → Option Cmd
unfolding whole_number
parse_size z c =
    let execute = c.bcmd == b'E' in
    elim (token z) [
      | none ↦ if execute then none else some c
      | some (t, z') ↦ elim (line_rest z') [
        | none ↦ if execute then none else some (record c { bytes = whole_number minus_one t })
        | some w ↦ some (record c { bytes = whole_number minus_one t; cmd = some w })
      ]
    ]

-- The notify string, which SVR4 lets the word "dummy" follow.
pub parse_notify : Bytes → Cmd → Option Cmd
unfolding parse_size same_string
parse_notify z c = elim (token z) [
  | none ↦ if c.bcmd == b'E' then none else some c
  | some (t, z') ↦
      let c' = record c { notify = some t } in
      if same_string t (codes "dummy")
      then elim (token z') [ none ↦ some c' | some (_, z'') ↦ parse_size z'' c' ]
      else parse_size z' c'
]

-- A mode, with what stands behind the number.
pub read_mode : ℤ × Bytes → Bytes → Bytes → Cmd → Option Cmd
unfolding parse_notify
read_mode (n, []) temp z c =
    parse_notify z (record c { temp = some temp; mode = adjust_mode (to_int n) })
read_mode (n, _ ∷ _) temp z c = none

-- The fields behind the options of a request to send or to execute.
pub parse_send : Bytes → Cmd → Option Cmd
unfolding read_mode
parse_send z c = do (temp, z₁) ← token z; (t, z₂) ← token z₁; read_mode (strtol t) temp z₂ c

-- The options, without the dash.
abbrev pub after_dash : Bytes → Option Bytes
after_dash [] = none
after_dash (c ∷ z) = if c == b'-' then some z else none

-- What follows the options.
pub parse_rest : ℕ → Bytes → Cmd → Option Cmd
unfolding unquote_cmd parse_receive parse_send
parse_rest b z c =
    if b == b'X'
    then some (unquote_cmd c)
    else if b == b'R'
    then some (unquote_cmd (parse_receive z c))
    else (parse_send z c >>= λ c'. some (unquote_cmd c'))

-- The fields that all requests have.
pub parse_fields : ℕ → Bytes → Option Cmd
unfolding parse_rest
parse_fields b z = do
  (from, z₁) ← token z
  (to, z₂) ← token z₁
  (user, z₃) ← token z₂
  (o, z₄) ← token z₃
  options ← after_dash o
  let c = record (blank b) {
    from = some from;
    to = some to;
    user = some user;
    options = some options;
  }
  parse_rest b z₄ c

-- `fparse_cmd`.
unfoldable pub parse_cmd : Bytes → Option Cmd
unfolding parse_hangup parse_fields
parse_cmd z = do
  (t, z₁) ← token z
  let b = head_char t
  if not (has_char b (codes "SRXEHP"))
      then none
      else if b == b'H'
      then parse_hangup t
      else if b == b'P'
      then some (blank b)
      else if length t != 1
      then none
      else parse_fields b z₁

-- `fneeds_quotes` of a string that is not NULL: it has a separator.
abbrev pub has_separator : Bytes → Bool
has_separator [] = false
has_separator (c ∷ z) = is_separator c || has_separator z

abbrev pub needs_quotes : Option Bytes → Bool
needs_quotes none = false
needs_quotes (some z) = has_separator z

-- `fcmd_needs_quotes`.
unfoldable pub cmd_needs_quotes : Cmd → Bool
cmd_needs_quotes c =
    needs_quotes c.from || needs_quotes c.to || needs_quotes c.user || needs_quotes c.notify

-- `uquote_cmd`. `none`: it looks for a `q` in the options, and they are NULL.
pub quote_cmd : Cmd → Option Cmd
unfolding quote_string
quote_cmd c = elim c.options [
  | none ↦ none
  | some o ↦ some (record c {
    from = map_string (quote_string false) c.from;
    to = map_string (quote_string false) c.to;
    user = map_string (quote_string false) c.user;
    options = some (if has_char b'q' o then o else o ++ b'q' ∷ []);
    notify = map_string (quote_string false) c.notify;
  })
]
