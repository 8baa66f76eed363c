-- ===== src/Command/Spool/Asks.antt =====
-- The commands that programs spool, and the line that is written for them (unix/splcmd.c).
use taylor_uucp.Base.{
  ◌≡◌, refl, ap, ap₂, ◌∙◌, false, Option, none, some, Bytes, if◌then◌else◌, ◌>>=◌,
}
use taylor_uucp.Command.{Cmd, needs_quotes, has_separator, map_string, cmd_needs_quotes, quote_cmd}
use taylor_uucp.Command.Escape.{quote_string}
use taylor_uucp.Command.Number.{pos}
use taylor_uucp.Command.Spool.{spool_line, command_line, or_empty}
use taylor_uucp.Command.Spool.Line.{Kind, receive, execute_there, send, execute, request}

-- The fields that the kind of command gives. A notify string that is not for it has no blank; one
-- that is empty counts as none.
abbrev pub AsksKind : Cmd → Kind → Type 0
AsksKind q receive = (q.bcmd ≡ b'R') × (needs_quotes q.notify ≡ false)
AsksKind q execute_there = (q.bcmd ≡ b'X') × (needs_quotes q.notify ≡ false)
AsksKind q (send temp mode notify) =
    (q.bcmd ≡ b'S')
    × (q.temp ≡ some temp)
    × (q.mode ≡ pos mode)
    × (or_empty q.notify ≡ or_empty notify)
AsksKind q (execute temp mode notify cmd) =
    (q.bcmd ≡ b'E')
    × (q.temp ≡ some temp)
    × (q.mode ≡ pos mode)
    × (q.notify ≡ some notify)
    × (q.cmd ≡ some cmd)

-- A command of the kind, whatever the fields that no line holds.
pub record Asks (q : Cmd) (from to user options : Bytes) (k : Kind) : Type 0 where
  pub from_is : q.from ≡ some from
  pub to_is : q.to ≡ some to
  pub user_is : q.user ≡ some user
  pub options_is : q.options ≡ some options
  pub kind_is : AsksKind q k

needs_quotes-or_empty : (o : Option Bytes) → needs_quotes o ≡ has_separator (or_empty o)
needs_quotes-or_empty none = refl
needs_quotes-or_empty (some z) = refl

or_empty-map_string :
    (o : Option Bytes)
    → or_empty (map_string (quote_string false) o) ≡ quote_string false (or_empty o)
unfolding quote_string
or_empty-map_string none = refl
or_empty-map_string (some z) = refl

module _ {q : Cmd} {from to user options : Bytes} where
  pub needs_quotes-Asks :
      (k : Kind)
      → Asks q from to user options k
      → cmd_needs_quotes q ≡ cmd_needs_quotes (request from to user options k)
  unfolding cmd_needs_quotes
  needs_quotes-Asks receive a = rw (a.from_is, a.to_is, a.user_is, a.kind_is.1) refl
  needs_quotes-Asks execute_there a = rw (a.from_is, a.to_is, a.user_is, a.kind_is.1) refl
  needs_quotes-Asks (send temp mode notify) a =
      rw
        (
          a.from_is,
          a.to_is,
          a.user_is,
          needs_quotes-or_empty q.notify,
          a.kind_is.3,
          needs_quotes-or_empty notify,
        )
        refl
  needs_quotes-Asks (execute temp mode notify cmd) a =
      rw (a.from_is, a.to_is, a.user_is, a.kind_is.3) refl

  command_line-Asks :
      (k : Kind)
      → Asks q from to user options k
      → command_line q ≡ command_line (request from to user options k)
  unfolding command_line
  command_line-Asks receive a = rw (a.from_is, a.to_is, a.user_is, a.options_is, a.kind_is.0) refl
  command_line-Asks execute_there a =
      rw (a.from_is, a.to_is, a.user_is, a.options_is, a.kind_is.0) refl
  command_line-Asks (send temp mode notify) a =
      let (b, t, m, n) = a.kind_is in
      rw (a.from_is, a.to_is, a.user_is, a.options_is, b, t, m, n) refl
  command_line-Asks (execute temp mode notify cmd) a =
      let (b, t, m, n, w) = a.kind_is in
      rw (a.from_is, a.to_is, a.user_is, a.options_is, b, t, m, n, w) refl

  quoted_line-Asks :
      (k : Kind)
      → Asks q from to user options k
      → (quote_cmd q >>= command_line)
        ≡ (quote_cmd (request from to user options k) >>= command_line)
  unfolding command_line quote_cmd
  quoted_line-Asks receive a = rw (a.options_is, a.from_is, a.to_is, a.user_is, a.kind_is.0) refl
  quoted_line-Asks execute_there a =
      rw (a.options_is, a.from_is, a.to_is, a.user_is, a.kind_is.0) refl
  quoted_line-Asks (send temp mode notify) a =
      let (b, t, m, n) = a.kind_is in
      rw
        (
          a.options_is,
          a.from_is,
          a.to_is,
          a.user_is,
          b,
          t,
          m,
          or_empty-map_string q.notify,
          n,
          or_empty-map_string notify,
        )
        refl
  quoted_line-Asks (execute temp mode notify cmd) a =
      let (b, t, m, n, w) = a.kind_is in
      rw (a.options_is, a.from_is, a.to_is, a.user_is, b, t, m, n, w) refl

  -- The line is that of the request.
  pub spool_line-Asks :
      (k : Kind)
      → Asks q from to user options k
      → spool_line q ≡ spool_line (request from to user options k)
  unfolding spool_line
  spool_line-Asks k a =
      ap₂ (λ b o. if b then o else command_line q) (needs_quotes-Asks k a) (quoted_line-Asks k a)
      ∙ ap
          (λ l.
            if cmd_needs_quotes (request from to user options k)
            then (quote_cmd (request from to user options k) >>= command_line)
            else l)
          (command_line-Asks k a)
