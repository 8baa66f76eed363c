-- ===== src/Command/Spool/RoundTrip.antt =====
-- The lines of a work file, written by `zsysdep_spool_commands` and read by `fparse_cmd`.
use taylor_uucp.Base.{
  ℕ, ◌<◌, ◌≡◌, ◌≢◌, refl, sym, ap, ◌∙◌, inl, inr, true, false, none, some, [], ◌∷◌, ◌++◌, Bytes,
  All, All-append, codes, ◌==◌, if◌then◌else◌, Bool-cases, arith,
}
use taylor_uucp.Command.{
  Cmd, has_char, map_string, unquoted, unquote_cmd, parse_cmd, same_string, has_separator,
  cmd_needs_quotes, quote_cmd,
}
use taylor_uucp.Command.Escape.{backslash, quote_string}
use taylor_uucp.Command.Spool.{spool_line, or_empty}
use taylor_uucp.Command.Spool.Asks.{Asks, needs_quotes-Asks, spool_line-Asks}
use taylor_uucp.Command.Spool.Line.{
  Kind, receive, execute_there, send, execute, request, line, command_line-request, OptionIs, Words,
  parse_cmd-line,
}
use taylor_uucp.Command.Spool.Send.{IsLine}
use taylor_uucp.Command.Spool.Words.{
  IsString, IsField, IsField-IsString, unquoted-quote_string, unquoted-plain, IsWord-quote_string,
  IsWord-has_separator, quote_string-ne-dummy, has_char-append,
}
use taylor_uucp.Command.Token.{IsWord, Plain, is_separator}

-- The strings of a request. The notify string of one to execute is not the word that SVR4 puts
-- behind such a string.
abbrev pub IsKind : Kind → Type 0
IsKind receive = Unit {0}
IsKind execute_there = Unit {0}
IsKind (send temp mode notify) = IsWord temp × (mode < 512) × OptionIs IsField notify
IsKind (execute temp mode notify cmd) =
    IsWord temp
    × (mode < 512)
    × IsField notify
    × (same_string notify (codes "dummy") ≡ false)
    × IsLine cmd

-- The command to execute has no backslash.
abbrev pub HasNoBackslash : Kind → Type 0
HasNoBackslash (execute temp mode notify cmd) =
    IsString cmd × All (λ c. (c == backslash) ≡ false) cmd
HasNoBackslash k = Unit {0}

-- The command to execute, which is not quoted, has been through `cescape`.
abbrev pub cmd_unquoted : Kind → Kind
cmd_unquoted (execute temp mode notify cmd) = execute temp mode notify (unquoted cmd)
cmd_unquoted receive = receive
cmd_unquoted execute_there = execute_there
cmd_unquoted (send temp mode notify) = send temp mode notify

cmd_unquoted-plain : (k : Kind) → HasNoBackslash k → cmd_unquoted k ≡ k
cmd_unquoted-plain receive h = refl
cmd_unquoted-plain execute_there h = refl
cmd_unquoted-plain (send temp mode notify) h = refl
cmd_unquoted-plain (execute temp mode n w) h = ap (execute temp mode n) (unquoted-plain w h.0 h.1)

abbrev quoted : Bytes → Bytes
quoted = quote_string false

abbrev quoted_kind : Kind → Kind
quoted_kind receive = receive
quoted_kind execute_there = execute_there
quoted_kind (send temp mode notify) = send temp mode (map_string quoted notify)
quoted_kind (execute temp mode notify cmd) = execute temp mode (quoted notify) cmd

Words-quoted : (k : Kind) → IsKind k → Words (quoted_kind k)
Words-quoted receive h = tt
Words-quoted execute_there h = tt
Words-quoted (send temp mode none) h = (h.0, h.1, tt)
Words-quoted (send temp mode (some n)) h = (h.0, h.1, IsWord-quote_string n h.2)
Words-quoted (execute temp mode n w) (ht, hm, hn, hd, hl) =
    (ht, hm, IsWord-quote_string n hn, quote_string-ne-dummy n (IsField-IsString n hn) hd, hl)

-- The options as they come back.
abbrev pub options_read : Bytes → Bytes → Bytes → Bytes → Kind → Bytes
options_read from to user options k =
    if cmd_needs_quotes (request from to user options k) then options ++ b'q' ∷ [] else options

module _ (from to user options : Bytes) (hf : IsField from) (ht : IsField to) (hu : IsField user)
    (ho : Plain options) (hq : has_char b'q' options ≡ false) where
  back : (z : Bytes) → IsField z → unquoted (quoted z) ≡ z
  back z h = unquoted-quote_string z (IsField-IsString z h)

  quote_cmd-request :
      (k : Kind)
      → quote_cmd (request from to user options k)
        ≡ some
            (request (quoted from) (quoted to) (quoted user) (options ++ b'q' ∷ []) (quoted_kind k))
  unfolding quote_cmd
  quote_cmd-request receive = rw hq refl
  quote_cmd-request execute_there = rw hq refl
  quote_cmd-request (send temp mode notify) = rw hq refl
  quote_cmd-request (execute temp mode notify cmd) = rw hq refl

  -- Without a `q` nothing is unquoted.
  unquote_cmd-request :
      (k : Kind) → unquote_cmd (request from to user options k) ≡ request from to user options k
  unfolding unquote_cmd
  unquote_cmd-request receive = rw hq refl
  unquote_cmd-request execute_there = rw hq refl
  unquote_cmd-request (send temp mode notify) = rw hq refl
  unquote_cmd-request (execute temp mode notify cmd) = rw hq refl

  has_q : has_char b'q' (options ++ b'q' ∷ []) ≡ true
  has_q = has_char-append b'q' options (b'q' ∷ []) ∙ rw hq refl

  unquote_cmd-quoted :
      (k : Kind)
      → IsKind k
      → unquote_cmd
          (request (quoted from) (quoted to) (quoted user) (options ++ b'q' ∷ []) (quoted_kind k))
        ≡ request from to user (options ++ b'q' ∷ []) (cmd_unquoted k)
  unfolding unquote_cmd
  unquote_cmd-quoted receive h = rw (has_q, back from hf, back to ht, back user hu) refl
  unquote_cmd-quoted execute_there h = rw (has_q, back from hf, back to ht, back user hu) refl
  unquote_cmd-quoted (send temp mode none) h =
      rw (has_q, back from hf, back to ht, back user hu) refl
  unquote_cmd-quoted (send temp mode (some n)) h =
      rw (has_q, back from hf, back to ht, back user hu, back n h.2) refl
  unquote_cmd-quoted (execute temp mode n w) (_, _, hn, _, _) =
      rw (has_q, back from hf, back to ht, back user hu, back n hn) refl

  -- Without blanks the strings are words as they are.
  no_separators :
      (k : Kind)
      → cmd_needs_quotes (request from to user options k) ≡ false
      → (has_separator from ≡ false) × (has_separator to ≡ false) × (has_separator user ≡ false)
  unfolding cmd_needs_quotes
  no_separators receive e = ground arith
  no_separators execute_there e = ground arith
  no_separators (send temp mode notify) e = ground arith
  no_separators (execute temp mode notify cmd) e = ground arith

  Words-plain :
      (k : Kind) → IsKind k → cmd_needs_quotes (request from to user options k) ≡ false → Words k
  unfolding cmd_needs_quotes
  Words-plain receive h e = tt
  Words-plain execute_there h e = tt
  Words-plain (send temp mode none) h e = h
  Words-plain (send temp mode (some n)) (hw, hm, hn) e =
      (hw, hm, IsWord-has_separator n hn (ground arith))
  Words-plain (execute temp mode n w) (hw, hm, hn, hd, hl) e =
      (hw, hm, IsWord-has_separator n hn (ground arith), hd, hl)

  -- A request whose line has to be quoted.
  request_quoted :
      (k : Kind)
      → IsKind k
      → cmd_needs_quotes (request from to user options k) ≡ true
      → (w : Bytes) × (spool_line (request from to user options k) ≡ some w)
        × (parse_cmd w ≡ some (request from to user (options ++ b'q' ∷ []) (cmd_unquoted k)))
  unfolding spool_line
  request_quoted k h b =
      let w = line (quoted from) (quoted to) (quoted user) (options ++ b'q' ∷ []) (quoted_kind k) in
      rw b (
        w,
        rw (quote_cmd-request k) (
            command_line-request (quoted from) (quoted to) (quoted user) (options ++ b'q' ∷ [])
              (quoted_kind k)),
        parse_cmd-line (quoted from) (quoted to) (quoted user) (options ++ b'q' ∷ [])
              (quoted_kind k) (IsWord-quote_string from hf) (IsWord-quote_string to ht)
              (IsWord-quote_string user hu)
              (All-append (λ c. is_separator c ≡ false) options (b'q' ∷ []) ho (refl, tt))
              (Words-quoted k h)
            ∙ ap some (unquote_cmd-quoted k h),
      )

  -- A request.
  request_back :
      (k : Kind)
      → IsKind k
      → HasNoBackslash k
      → (w : Bytes) × (spool_line (request from to user options k) ≡ some w)
        × (parse_cmd w ≡ some (request from to user (options_read from to user options k) k))
  unfolding spool_line
  request_back k h n = elim (Bool-cases (cmd_needs_quotes (request from to user options k))) [
    | inl b ↦
        let (w, s, p) = request_quoted k h b in
        rw b (
          w,
          rw b at s,
          p
              ∙ ap (λ j. some (request from to user (options ++ b'q' ∷ []) j))
                  (cmd_unquoted-plain k n),
        )
    | inr b ↦
        let (sf, st, su) = no_separators k b in
        rw b (
          line from to user options k,
          command_line-request from to user options k,
          parse_cmd-line from to user options k (IsWord-has_separator from hf sf)
                (IsWord-has_separator to ht st) (IsWord-has_separator user hu su) ho
                (Words-plain k h b)
              ∙ ap some (unquote_cmd-request k),
        )
  ]

  -- For a command of type S, R, X or E whose from, to and user strings are not empty, are of
  -- bytes from 1 to 255 and may have blanks, backslashes and unprintable characters, and whose
  -- options have no blank and no `q`. For S and E the temporary file is a word and the mode below
  -- 01000; for S the notify string is NULL, empty or such a string; for E it is such a string and
  -- not `dummy`, and the command to execute is one line of bytes from 1 to 255 that is not empty
  -- and has no backslash; for R and X the notify string has no blank. The other fields are any.
  -- Then `zsysdep_spool_commands` writes a line, and `fparse_cmd` reads from it the same type,
  -- from, to and user strings and options, with a `q` added to these if the line had to be
  -- quoted, and for S and E the same temporary file, mode, notify string (NULL for an empty one)
  -- and command to execute. All other fields are as `fparse_cmd` starts: grade 0, size -1 (0 for
  -- E, as the line says), and for R and X no temporary file or notify string and the mode 0666.
  pub parse_cmd-spool_line :
      (q : Cmd) (k : Kind)
      → Asks q from to user options k
      → IsKind k
      → HasNoBackslash k
      → (w : Bytes) × (spool_line q ≡ some w)
        × (parse_cmd w ≡ some (request from to user (options_read from to user options k) k))
  parse_cmd-spool_line q k a h n =
      let (w, s, p) = request_back k h n in (w, spool_line-Asks k a ∙ s, p)

  -- For a command of type E: from, to, user and notify strings are not empty and of bytes from 1
  -- to 255, the last not `dummy`, the options have no blank and no `q`, the temporary file is a
  -- word, the mode below 01000, and the command to execute one line that is not empty. If its
  -- line of the work file has to be quoted and `cescape` does not leave the command to execute as
  -- it is: `fparse_cmd` reads from the line a command to execute that has been through `cescape`,
  -- though it was never quoted, and is not the one that was spooled.
  pub parse_cmd-quoted :
      (q : Cmd) (temp : Bytes) (mode : ℕ) (notify cmd : Bytes)
      → Asks q from to user options (execute temp mode notify cmd)
      → IsKind (execute temp mode notify cmd)
      → cmd_needs_quotes q ≡ true
      → unquoted cmd ≢ cmd
      → (w : Bytes) × (c : Cmd) × (spool_line q ≡ some w)
        × (parse_cmd w ≡ some c)
        × (c.cmd ≡ some (unquoted cmd))
        × (c.cmd ≢ q.cmd)
  parse_cmd-quoted q temp mode notify cmd a h b ne =
      let k = execute temp mode notify cmd in
      let (w, s, p) = request_quoted k h (sym (needs_quotes-Asks k a) ∙ b) in
      (
        w,
        request from to user (options ++ b'q' ∷ []) (cmd_unquoted k),
        spool_line-Asks k a ∙ s,
        p,
        refl,
        λ e. ne (ap or_empty (e ∙ a.kind_is.4)),
      )
