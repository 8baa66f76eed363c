-- ===== src/Tests/Command.antt =====
-- lib/parse.c, lib/quote.c, lib/quotes.c and lib/escape.c on commands of a work file.
use taylor_uucp.Base.{
  ◌≡◌, ◌≢◌, refl, ap, length, true, false, some, [], ◌∷◌, ◌++◌, Bytes, codes, arith,
}
use taylor_uucp.Command.{Cmd, parse_cmd, cmd_needs_quotes, unquoted, same_string}
use taylor_uucp.Command.Spool.Send.{IsLine}
use taylor_uucp.Command.Token.{IsWord}
use taylor_uucp.Command.Escape.{escape, quote_string}
use taylor_uucp.Command.Escape.RoundTrip.{escape-quote_string}
use taylor_uucp.Command.Number.{minus_one}
use taylor_uucp.Command.Spool.{spool_line}
use taylor_uucp.Command.Spool.Asks.{Asks}
use taylor_uucp.Command.Spool.Line.{Kind, send, execute, request}
use taylor_uucp.Command.Spool.RoundTrip.{options_read, parse_cmd-spool_line, parse_cmd-quoted}

-- A name with blanks, a backslash and a byte that does not print.
abbrev odd_name : Bytes
odd_name = codes "my file" ++ 92 ∷ 10 ∷ 200 ∷ []

escape_example : escape (quote_string false odd_name) ≡ odd_name
escape_example = escape-quote_string false odd_name (omega arith)

temp-IsWord : IsWord (codes "D.0001")
temp-IsWord = (refl, (refl, (refl, (refl, (refl, (refl, tt))))))

not_dummy : same_string (codes "ian") (codes "dummy") ≡ false
unfolding same_string
not_dummy = refl

run-IsLine : IsLine (codes "echo a\\n")
run-IsLine = (refl, (refl, (refl, (refl, (refl, (refl, (refl, (refl, tt))))))))

abbrev send_it : Kind
send_it = send (codes "D.0001") 0o644 (some (codes "ian"))

-- As `uucp` spools it, with a grade.
abbrev sent_command : Cmd
sent_command = record (request odd_name (codes "~/x") (codes "ian") (codes "dC") send_it) {
  bgrade = b'N';
  bytes = minus_one;
}

sent_command-Asks : Asks sent_command odd_name (codes "~/x") (codes "ian") (codes "dC") send_it
sent_command-Asks = record {
  from_is = refl;
  to_is = refl;
  user_is = refl;
  options_is = refl;
  kind_is = (refl, refl, refl, refl);
}

parse_cmd-spool_line_example :
    (w : Bytes) × (spool_line sent_command ≡ some w)
    × (parse_cmd w
        ≡ some (
            request odd_name
              (codes "~/x")
              (codes "ian")
              (options_read odd_name (codes "~/x") (codes "ian") (codes "dC") send_it)
              send_it))
parse_cmd-spool_line_example =
    parse_cmd-spool_line odd_name (codes "~/x") (codes "ian") (codes "dC") (omega arith)
      (omega arith) (omega arith) (refl, (refl, tt)) refl sent_command send_it sent_command-Asks
      (temp-IsWord, omega arith, omega arith) tt

-- A command with a backslash.
abbrev run_it : Kind
run_it = execute (codes "D.0001") 0o644 (codes "ian") (codes "echo a\\n")

-- As `uux` spools it, with a grade and without a size.
abbrev run_command : Cmd
run_command = record (request odd_name (codes "D.x") (codes "ian") (codes "C") run_it) {
  bgrade = b'A';
  bytes = minus_one;
}

run_command-Asks : Asks run_command odd_name (codes "D.x") (codes "ian") (codes "C") run_it
run_command-Asks = record {
  from_is = refl;
  to_is = refl;
  user_is = refl;
  options_is = refl;
  kind_is = (refl, refl, refl, refl, refl);
}

run_needs_quotes : cmd_needs_quotes run_command ≡ true
unfolding cmd_needs_quotes
run_needs_quotes = refl

-- The backslash and the letter have become a line break.
run_changed : unquoted (codes "echo a\\n") ≢ codes "echo a\\n"
unfolding escape
run_changed = λ e. absurd (omega (arith, ap length e))

parse_cmd-quoted_example :
    (w : Bytes) × (c : Cmd) × (spool_line run_command ≡ some w)
    × (parse_cmd w ≡ some c)
    × (c.cmd ≡ some (unquoted (codes "echo a\\n")))
    × (c.cmd ≢ run_command.cmd)
parse_cmd-quoted_example =
    parse_cmd-quoted odd_name (codes "D.x") (codes "ian") (codes "C") (omega arith) (omega arith)
      (omega arith) (refl, tt) refl run_command (codes "D.0001") 0o644 (codes "ian")
      (codes "echo a\\n") run_command-Asks
      (temp-IsWord, omega arith, omega arith, not_dummy, run-IsLine) run_needs_quotes run_changed
