-- ===== src/F/RoundTrip.antt =====
-- File data of the 'f' protocol: what `ffsenddata` encodes, `ffprocess_data` decodes.
use taylor_uucp.Base.{
  ℕ, ◌+◌, ◌-◌, ◌%◌, ◌^◌, ◌≤◌, ◌<◌, ◌≡◌, inl, inr, refl, sym, ap, ap₂, ◌∙◌, false, List, [], ◌∷◌,
  ◌++◌, append-nil, append_assoc, Bytes, AllBytes, length, length-append, ltb, leb, Bool-cases,
  arith,
}
use taylor_uucp.F.{add_check, sum_check, encode_byte, encode}
use taylor_uucp.F.Decode.{special, byte, shifted, classify, Scan, scan}
use taylor_uucp.F.Append.{prefix, scan-append, scan-ended}

-- One special character and one other.
scan-pair :
    (chk sp c b : ℕ) (w : Bytes)
    → b < 256
    → classify 0 (sp % 2 ^ 7) ≡ special sp
    → classify sp (c % 2 ^ 7) ≡ byte b
    → scan 0 chk (sp ∷ c ∷ w) ≡ prefix 2 (b ∷ []) (scan 0 (add_check chk b) w)
unfolding scan
scan-pair chk sp c b w h e e' =
    let r = scan 0 (add_check chk b) w in
    rw (scan, e, scan, e')
      (ap₂ (λ x u. record r { out = x ∷ r.out; used = u }) (omega arith) (omega arith))

scan-single :
    (chk b : ℕ) (w : Bytes)
    → b < 256
    → classify 0 (b % 2 ^ 7) ≡ byte b
    → scan 0 chk (b ∷ w) ≡ prefix 1 (b ∷ []) (scan 0 (add_check chk b) w)
unfolding scan
scan-single chk b w h e =
    let r = scan 0 (add_check chk b) w in
    rw (scan, e) (ap₂ (λ x u. record r { out = x ∷ r.out; used = u }) (omega arith) (omega arith))

-- A character that is not special, behind a special one or none.
classify-byte :
    (sp c n : ℕ) → 32 ≤ c → c < 122 → shifted sp c ≡ n → classify sp (c % 2 ^ 7) ≡ byte n
unfolding classify
classify-byte sp c n h k e =
    let x : c % 2 ^ 7 ≡ c = omega arith in
    let a : ltb c 32 ≡ false = ground arith in
    let b : ltb 126 c ≡ false = ground arith in
    let d : leb 122 c ≡ false = ground arith in rw (x, a, b, d, e)

scan-encode_byte :
    (chk b : ℕ) (w : Bytes)
    → b < 256
    → scan 0 chk (encode_byte b ++ w)
      ≡ prefix (length (encode_byte b)) (b ∷ []) (scan 0 (add_check chk b) w)
unfolding encode_byte classify shifted
scan-encode_byte chk b w h = elim (Bool-cases (leb b 127)) [
  | inl t ↦ rw t (elim (Bool-cases (leb b 31)) [
    | inl t' ↦ rw t' (
        scan-pair chk 122 (b + 64) b w h refl
          (classify-byte 122 (b + 64) b (omega arith) (ground arith) (ground arith)))
    | inr t' ↦ rw t' (elim (Bool-cases (leb b 121)) [
      | inl t'' ↦
          rw t'' (scan-single chk b w h (classify-byte 0 b b (ground arith) (ground arith) refl))
      | inr t'' ↦ rw t'' (
          scan-pair chk 123 (b - 64) b w h refl
            (classify-byte 123 (b - 64) b (ground arith) (ground arith) (ground arith)))
    ])
  ])
  | inr t ↦ rw t (elim (Bool-cases (leb b 159)) [
    | inl t' ↦ rw t' (
        scan-pair chk 124 (b - 64) b w h refl
          (classify-byte 124 (b - 64) b (ground arith) (ground arith) (ground arith)))
    | inr t' ↦ rw t' (elim (Bool-cases (leb b 249)) [
      | inl t'' ↦ rw t'' (
          scan-pair chk 125 (b - 128) b w h refl
            (classify-byte 125 (b - 128) b (ground arith) (ground arith) (ground arith)))
      | inr t'' ↦ rw t'' (
          scan-pair chk 126 (b - 192) b w h refl
            (classify-byte 126 (b - 192) b (ground arith) (ground arith) (ground arith)))
    ])
  ])
]

-- The bytes of a file come back, with the sender's checksum and no special character left over.
pub scan-encode :
    (z : Bytes) (chk : ℕ) (w : Bytes)
    → AllBytes z
    → scan 0 chk (encode z ++ w) ≡ prefix (length (encode z)) z (scan 0 (sum_check chk z) w)
unfolding encode sum_check
scan-encode [] chk w h = let r = scan 0 chk w in ap (λ u. record r { used = u }) (omega arith)
scan-encode (b ∷ z) chk w (hb, h) =
    let r = scan 0 (sum_check (add_check chk b) z) w in
    let e = encode_byte b in
    ap (scan 0 chk) (append_assoc e (encode z) w)
    ∙ scan-encode_byte chk b (encode z ++ w) hb
    ∙ ap (prefix (length e) (b ∷ [])) (scan-encode z (add_check chk b) w h)
    ∙ ap (λ u. record r { out = b ∷ (z ++ r.out); used = u })
        (omega (arith, length-append e (encode z)))

-- The reads of a file, one after the other, and their bytes.
abbrev pub scans : ℕ → ℕ → List Bytes → Scan
scans sp chk [] = scan sp chk []
scans sp chk (a ∷ rest) =
    let r = scan sp chk a in prefix r.used r.out (scans r.special_last r.check rest)

abbrev pub concat : List Bytes → Bytes
concat [] = []
concat (a ∷ rest) = a ++ concat rest

scans-scan :
    (rest : List Bytes) (sp chk : ℕ)
    → (scan sp chk (concat rest)).ended ≡ false
    → scans sp chk rest ≡ scan sp chk (concat rest)
scans-scan [] sp chk e = refl
scans-scan (a ∷ rest) sp chk e =
    let r = scan sp chk a in
    let j : scan sp chk (a ++ concat rest)
        ≡ prefix r.used r.out (scan r.special_last r.check (concat rest)) =
      scan-append a (concat rest) sp chk (scan-ended a (concat rest) sp chk e) in
    ap (prefix r.used r.out) (scans-scan rest r.special_last r.check (ap Scan.ended (sym j) ∙ e))
    ∙ sym j

-- A scan of a whole file.
abbrev pub whole : ℕ → Bytes → ℕ → Scan
whole chk z n = record { out = z; used = n; special_last = 0; check = chk; ended = false }

pub scan-whole :
    (z : Bytes) (chk : ℕ)
    → AllBytes z
    → scan 0 chk (encode z) ≡ whole (sum_check chk z) z (length (encode z))
scan-whole z chk h =
    unfold scan in
    ap (scan 0 chk) (sym (append-nil (encode z)))
    ∙ scan-encode z chk [] h
    ∙ ap₂ (whole (sum_check chk z)) (append-nil z) (omega arith)

-- However the characters that `ffsenddata` sends for the bytes `z` are divided between reads, the
-- decoding loop of `ffprocess_data`, started without a special character, returns `z`, uses all
-- characters, never takes one for the end of the file, has the sender's checksum and has no
-- special character left over.
pub decode-encode :
    (z : Bytes) (rest : List Bytes) (chk : ℕ)
    → AllBytes z
    → concat rest ≡ encode z
    → scans 0 chk rest ≡ whole (sum_check chk z) z (length (encode z))
decode-encode z rest chk h e =
    unfold scan in
    let one : scan 0 chk (concat rest)
        ≡ prefix (length (encode z)) z (scan 0 (sum_check chk z) []) =
      ap (scan 0 chk) (e ∙ sym (append-nil (encode z))) ∙ scan-encode z chk [] h in
    scans-scan rest 0 chk (ap Scan.ended one)
    ∙ one
    ∙ ap₂ (whole (sum_check chk z)) (append-nil z) (omega arith)
