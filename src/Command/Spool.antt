-- ===== src/Command/Spool.antt =====
-- unix/splcmd.c: the line of a work file that `zsysdep_spool_commands` writes for a command.
pub mod Asks
pub mod Line
pub mod Read
pub mod RoundTrip
pub mod Send
pub mod Words
use taylor_uucp.Base.{
  ℕ, Bool, true, false, Option, none, some, [], ◌∷◌, ◌++◌, Bytes, ◌==◌, if◌then◌else◌, ◌>>=◌,
}
use taylor_uucp.Command.{Cmd, cmd_needs_quotes, quote_cmd}
use taylor_uucp.Command.Number.{octal}

-- `"%c %s %s %s -%s"`, and what follows.
abbrev pub fields_line : ℕ → Bytes → Bytes → Bytes → Bytes → Bytes → Bytes
fields_line b from to user options rest =
    b ∷ 32 ∷ (from ++ 32 ∷ (to ++ 32 ∷ (user ++ 32 ∷ b'-' ∷ (options ++ rest))))

-- `" %s 0%o %s"`, and what follows.
abbrev pub send_line : Bytes → Bytes → Bytes → Bytes → Bytes
send_line temp mode notify rest = 32 ∷ (temp ++ 32 ∷ b'0' ∷ (mode ++ 32 ∷ (notify ++ rest)))

abbrev pub or_empty : Option Bytes → Bytes
or_empty none = []
or_empty (some z) = z

-- The line for a command, in quotes if it needs them. `none`: another type of command, or a string
-- to be printed is NULL.
pub command_line : Cmd → Option Bytes
command_line q = do
  from ← q.from
  to ← q.to
  user ← q.user
  options ← q.options
  if q.bcmd == b'S'
      then (do
        temp ← q.temp
        some (
            fields_line b'S' from to user options
              (send_line temp (octal q.mode) (or_empty q.notify) (10 ∷ []))))
      else if q.bcmd == b'R'
      then some (fields_line b'R' from to user options (10 ∷ []))
      else if q.bcmd == b'X'
      then some (fields_line b'X' from to user options (10 ∷ []))
      else if q.bcmd == b'E'
      then (do
        temp ← q.temp
        notify ← q.notify
        cmd ← q.cmd
        some (
            fields_line b'E' from to user options
              (send_line temp (octal q.mode) notify (32 ∷ b'0' ∷ 32 ∷ (cmd ++ 10 ∷ [])))))
      else none

unfoldable pub spool_line : Cmd → Option Bytes
unfolding command_line cmd_needs_quotes quote_cmd
spool_line c = if cmd_needs_quotes c then (quote_cmd c >>= command_line) else command_line c
