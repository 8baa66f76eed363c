-- ===== src/Command/Spool/Send.antt =====
-- What `fparse_cmd` makes of the fields behind the options.
use taylor_uucp.Base.{
  ℕ, ◌<◌, ◌≡◌, refl, ap, ◌∙◌, inl, inr, false, some, [], ◌∷◌, ◌++◌, Bytes, All, codes, ◌==◌,
  Bool-cases, arith,
}
use taylor_uucp.Command.{
  Cmd, read_mode, parse_send, parse_notify, parse_size, parse_receive, adjust_mode, until_newline,
  same_string, whole_number,
}
use taylor_uucp.Command.Number.{pos, octal}
use taylor_uucp.Command.Number.Octal.{strtol-octal, octal-Plain, strtol-zero, to_int-mode}
use taylor_uucp.Command.Token.{IsWord, token-append, token-nil, token-newline}

adjust_mode-mode : (m : ℕ) → m < 512 → adjust_mode (pos m) ≡ pos m
adjust_mode-mode m h = ground arith

pub parse_send-words :
    (temp : Bytes) (m : ℕ) (z : Bytes) (c : Cmd)
    → IsWord temp
    → m < 512
    → parse_send (temp ++ 32 ∷ b'0' ∷ (octal (pos m) ++ 32 ∷ z)) c
      ≡ parse_notify z (record c { temp = some temp; mode = pos m })
unfolding parse_send read_mode
parse_send-words temp m z c ht h =
    rw
      (
        token-append temp 32 (b'0' ∷ (octal (pos m) ++ 32 ∷ z)) ht refl,
        token-append (b'0' ∷ octal (pos m)) 32 z (refl, octal-Plain m h) refl,
      )
      (ap (λ r. read_mode r temp z c) (strtol-octal m h)
        ∙ ap (λ n. parse_notify z (record c { temp = some temp; mode = n }))
            (ap adjust_mode (to_int-mode m h) ∙ adjust_mode-mode m h))

module _ (c : Cmd) where
  pub parse_notify-nil : (c.bcmd == b'E') ≡ false → parse_notify (10 ∷ []) c ≡ some c
  unfolding parse_notify
  parse_notify-nil e = rw (token-newline, parse_notify, e) refl

  pub parse_notify-word :
      (n : Bytes)
      → (c.bcmd == b'E') ≡ false
      → IsWord n
      → parse_notify (n ++ 10 ∷ []) c ≡ some (record c { notify = some n })
  unfolding parse_notify parse_size
  parse_notify-word n e h = elim (Bool-cases (same_string n (codes "dummy"))) [
    | inl b ↦ rw (token-append n 10 [] h refl, parse_notify, b, token-nil) refl
    | inr b ↦ rw (token-append n 10 [] h refl, parse_notify, b, parse_size, token-nil, e) refl
  ]

until_newline-append :
    (w : Bytes) → All (λ d. (d == 10) ≡ false) w → until_newline (w ++ 10 ∷ []) ≡ w
until_newline-append [] h = refl
until_newline-append (d ∷ w) h = rw (h.0, until_newline-append w h.1) refl

-- The command of an execution request.
abbrev pub IsLine : Bytes → Type 0
IsLine [] = ⊥
IsLine (d ∷ w) = All (λ x. (x == 10) ≡ false) (d ∷ w)

pub parse_notify-execute :
    (n w : Bytes) (c : Cmd)
    → IsWord n
    → same_string n (codes "dummy") ≡ false
    → IsLine w
    → parse_notify (n ++ 32 ∷ b'0' ∷ 32 ∷ (w ++ 10 ∷ [])) c
      ≡ some (record c { notify = some n; bytes = pos 0; cmd = some w })
unfolding parse_notify parse_size whole_number
parse_notify-execute n [] c h e k = elim k [ ]
parse_notify-execute n (d ∷ w) c h e k =
    rw
      (
        token-append n 32 (b'0' ∷ 32 ∷ ((d ∷ w) ++ 10 ∷ [])) h refl,
        parse_notify,
        e,
        token-append (b'0' ∷ []) 32 ((d ∷ w) ++ 10 ∷ []) (refl, tt) refl,
        parse_size,
        strtol-zero,
        k.0,
        until_newline-append w k.1,
      )
      refl

pub parse_receive-nil : (c : Cmd) → parse_receive [] c ≡ c
unfolding parse_receive
parse_receive-nil c = rw (token-nil, parse_receive) refl
