-- ===== src/Command/Spool/Line.antt =====
-- A line whose fields are words, as `fparse_cmd` reads it.
use taylor_uucp.Base.{
  ℕ, ◌<◌, ◌≡◌, refl, ap, ◌∙◌, false, Option, none, some, [], ◌∷◌, ◌++◌, Bytes, codes, ◌==◌, ◌>>=◌,
}
use taylor_uucp.Command.{
  Cmd, unquote_cmd, parse_rest, parse_cmd, parse_receive, parse_notify, same_string,
}
use taylor_uucp.Command.Number.{pos, octal}
use taylor_uucp.Command.Spool.{fields_line, send_line, or_empty, command_line}
use taylor_uucp.Command.Spool.Read.{with_fields, parse_cmd-words}
use taylor_uucp.Command.Spool.Send.{
  IsLine, parse_send-words, parse_notify-nil, parse_notify-word, parse_notify-execute,
  parse_receive-nil,
}
use taylor_uucp.Command.Token.{IsWord, Plain}

-- What a command asks for, beyond the fields that all have.
pub data Kind : Type 0 where
  receive : Kind
  execute_there : Kind
  send : Bytes → ℕ → Option Bytes → Kind
  execute : Bytes → ℕ → Bytes → Bytes → Kind

-- The structure. The fields that it has no value for are those that `fparse_cmd` starts from.
abbrev pub request : Bytes → Bytes → Bytes → Bytes → Kind → Cmd
request from to user options receive = with_fields b'R' from to user options
request from to user options execute_there = with_fields b'X' from to user options
request from to user options (send temp mode notify) =
    record (with_fields b'S' from to user options) {
      temp = some temp;
      mode = pos mode;
      notify = notify;
    }
request from to user options (execute temp mode notify cmd) =
    record (with_fields b'E' from to user options) {
      temp = some temp;
      mode = pos mode;
      notify = some notify;
      bytes = pos 0;
      cmd = some cmd;
    }

-- Its line.
abbrev pub line : Bytes → Bytes → Bytes → Bytes → Kind → Bytes
line from to user options receive = fields_line b'R' from to user options (10 ∷ [])
line from to user options execute_there = fields_line b'X' from to user options (10 ∷ [])
line from to user options (send temp mode notify) =
    fields_line b'S' from to user options
      (send_line temp (octal (pos mode)) (or_empty notify) (10 ∷ []))
line from to user options (execute temp mode notify cmd) =
    fields_line b'E' from to user options
      (send_line temp (octal (pos mode)) notify (32 ∷ b'0' ∷ 32 ∷ (cmd ++ 10 ∷ [])))

pub command_line-request :
    (from to user options : Bytes) (k : Kind)
    → command_line (request from to user options k) ≡ some (line from to user options k)
unfolding command_line
command_line-request from to user options receive = refl
command_line-request from to user options execute_there = refl
command_line-request from to user options (send temp mode notify) = refl
command_line-request from to user options (execute temp mode notify cmd) = refl

-- The other fields are words.
abbrev pub OptionIs : (Bytes → Type 0) → Option Bytes → Type 0
OptionIs P none = Unit {0}
OptionIs P (some z) = P z

abbrev pub Words : Kind → Type 0
Words receive = Unit {0}
Words execute_there = Unit {0}
Words (send temp mode notify) = IsWord temp × (mode < 512) × OptionIs IsWord notify
Words (execute temp mode notify cmd) =
    IsWord temp
    × (mode < 512)
    × IsWord notify
    × (same_string notify (codes "dummy") ≡ false)
    × IsLine cmd

abbrev then_unquote : Option Cmd → Option Cmd
then_unquote o = o >>= λ c. some (unquote_cmd c)

notified :
    (c : Cmd)
    → (c.bcmd == b'E') ≡ false
    → (notify : Option Bytes) → OptionIs IsWord notify
    → parse_notify (or_empty notify ++ 10 ∷ []) (record c { notify = none })
      ≡ some (record c { notify = notify })
notified c e none h = parse_notify-nil (record c { notify = none }) e
notified c e (some n) h = parse_notify-word (record c { notify = none }) n e h

pub parse_cmd-line :
    (from to user options : Bytes) (k : Kind)
    → IsWord from
    → IsWord to
    → IsWord user
    → Plain options
    → Words k
    → parse_cmd (line from to user options k) ≡ some (unquote_cmd (request from to user options k))
unfolding parse_rest parse_receive
parse_cmd-line f t u o receive hf ht hu ho h =
    parse_cmd-words f t u o hf ht hu ho b'R' 10 [] refl refl
    ∙ ap (λ c. some (unquote_cmd c)) (parse_receive-nil (with_fields b'R' f t u o))
parse_cmd-line f t u o execute_there hf ht hu ho h =
    parse_cmd-words f t u o hf ht hu ho b'X' 10 [] refl refl
parse_cmd-line f t u o (send temp mode notify) hf ht hu ho (hw, hm, hn) =
    let z = or_empty notify ++ 10 ∷ [] in
    let c = with_fields b'S' f t u o in
    let c' = record c { temp = some temp; mode = pos mode } in
    parse_cmd-words f t u o hf ht hu ho b'S' 32 (temp ++ 32 ∷ b'0' ∷ (octal (pos mode) ++ 32 ∷ z))
      refl refl
    ∙ ap then_unquote (parse_send-words temp mode z c hw hm ∙ notified c' refl notify hn)
parse_cmd-line f t u o (execute temp mode n w) hf ht hu ho (hw, hm, hn, hd, hl) =
    let z = n ++ 32 ∷ b'0' ∷ 32 ∷ (w ++ 10 ∷ []) in
    let c = with_fields b'E' f t u o in
    let c' = record c { temp = some temp; mode = pos mode } in
    parse_cmd-words f t u o hf ht hu ho b'E' 32 (temp ++ 32 ∷ b'0' ∷ (octal (pos mode) ++ 32 ∷ z))
      refl refl
    ∙ ap then_unquote (parse_send-words temp mode z c hw hm ∙ parse_notify-execute n w c' hn hd hl)
