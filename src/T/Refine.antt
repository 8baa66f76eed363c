-- ===== src/T/Refine.antt =====
-- `ftprocess_data` on the ring reads what the function of the waiting bytes says.
use taylor_uucp.Base.{
  ℕ, zero, suc, ◌+◌, ◌-◌, ◌^◌, ◌≤◌, ◌<◌, ◌≡◌, refl, sym, ap, ◌∙◌, inl, inr, Bool, true, false, List,
  [], ◌∷◌, ◌++◌, append-nil, Bytes, length, take, drop, ltb, leb, Bool-cases, arith,
}
use mathlib.Core.Path.{subst}
use taylor_uucp.Prot.{Conn}
use taylor_uucp.Prot.Queue.{taken, taken-contents}
use taylor_uucp.Prot.Room.{used, contents, IsValid}
use taylor_uucp.T.{
  Session, ctframelen, ctpacksize, block_length, command_loop, file_loop, process_data,
}
use taylor_uucp.T.Blocks.{
  missing, cut_command, cut_command-missing, cut_command-block, cut_file, cut_file-header,
  cut_file-overlong, cut_file-missing, cut_file-block, long_at, read_blocks, read_waiting,
}
use taylor_uucp.T.Agree.{
  collect, Agrees, given_one, long_at-contents, length-contents, passed-Agrees,
}

module _ {c : Conn} where
  module _ (last : Bytes → Bool) where
    command_loop-Agrees :
        (f u : ℕ) (s : Session c (List Bytes))
        → IsValid s.port
        → u ≡ used s.port
        → Agrees s.host
            (read_blocks f cut_command last (contents s.port))
            (command_loop f (collect last) u s)
    unfolding command_loop read_blocks
    command_loop-Agrees zero u s v e = tt
    command_loop-Agrees (suc f) u s v e =
        let w = contents s.port in
        let l = length-contents s.port in
        elim (Bool-cases (leb ctpacksize u)) [
          | inr t ↦
              let lt : u < ctpacksize = ground arith in
              let n : length w ≡ u = omega arith in
              let k = cut_command-missing w (omega arith) ∙ ap (λ i. missing (ctpacksize - i)) n in
              rw (k, command_loop, t, Agrees)
                (refl, record { valid = v; given = sym (append-nil s.host); left = refl })
          | inl t ↦
              let p = taken s.port ctpacksize in
              let b = take ctpacksize w in
              let fits : ctpacksize ≤ used s.port = ground arith in
              let (v', u', w') = taken-contents s.port ctpacksize v fits in
              let k = cut_command-block w (omega arith) in
              let ih = command_loop-Agrees f (u - ctpacksize) (given_one s b p) v' (omega arith) in
              let loop = command_loop f (collect last) (u - ctpacksize) in
              let rest = read_blocks f cut_command last (drop ctpacksize w) in
              rw (k, command_loop, t)
                (passed-Agrees last ctpacksize s (drop ctpacksize w) rest loop v fits v' w'
                  (rw w' at ih))
        ]

    file_loop-Agrees :
        (f u : ℕ) (s : Session c (List Bytes))
        → IsValid s.port
        → u ≡ used s.port
        → Agrees s.host
            (read_blocks f cut_file last (contents s.port))
            (file_loop f (collect last) u s)
    unfolding file_loop read_blocks
    file_loop-Agrees zero u s v e = tt
    file_loop-Agrees (suc f) u s v e =
        let w = contents s.port in
        let l : length w ≡ u = length-contents s.port ∙ sym e in
        elim (Bool-cases (leb ctframelen u)) [
          | inr t ↦
              let lt : u < ctframelen = ground arith in
              let k = cut_file-header w (omega arith) ∙ ap (λ i. missing (ctframelen - i)) l in
              rw (k, file_loop, t, Agrees)
                (refl, record { valid = v; given = sym (append-nil s.host); left = refl })
          | inl t ↦
              let header : ctframelen ≤ u = ground arith in
              let n = block_length s.port in
              let q : long_at w ≡ n = long_at-contents s.port v (omega arith) in
              let wide : ctframelen ≤ length w = omega arith in
              elim (Bool-cases (leb (2 ^ 31 - ctframelen) n)) [
                | inl neg ↦ rw (cut_file-overlong w wide n q neg, file_loop, t, neg) tt
                | inr pos ↦ elim (Bool-cases (ltb u (n + ctframelen))) [
                  | inl short ↦
                      let k =
                        cut_file-missing w wide n q pos (ground arith)
                        ∙ ap (λ i. missing (n + ctframelen - i)) l in
                      rw (k, file_loop, t, pos, short, Agrees)
                        (refl, record { valid = v; given = sym (append-nil s.host); left = refl })
                  | inr fits ↦
                      let s₄ = record s { port = taken s.port ctframelen } in
                      let (v₄, u₄, w₄) = taken-contents s.port ctframelen v (omega arith) in
                      let room : n ≤ used s₄.port = ground arith in
                      let (v', u', w') = taken-contents s₄.port n v₄ room in
                      let k = cut_file-block w wide n q pos (ground arith) in
                      let b = take n (contents s₄.port) in
                      let left = u - (n + ctframelen) in
                      let ih =
                        file_loop-Agrees f left (given_one s₄ b (taken s₄.port n)) v'
                          (omega arith) in
                      let loop = file_loop f (collect last) left in
                      let rest = read_blocks f cut_file last (drop n (contents s₄.port)) in
                      let ih' =
                        subst
                          (λ y.
                            Agrees (s.host ++ b ∷ []) (read_blocks f cut_file last y)
                              (loop (given_one s₄ b (taken s₄.port n))))
                          w' ih in
                      rw (k, file_loop, t, pos, fits, sym w₄)
                        (passed-Agrees last n s₄ (drop n (contents s₄.port)) rest loop v₄ room v' w'
                          ih')
                ]
              ]
        ]

    process-Agrees :
        (file : Bool) (s : Session c (List Bytes))
        → s.file ≡ file
        → IsValid s.port
        → Agrees s.host (read_waiting file last (contents s.port)) (process_data (collect last) s)
    unfolding process_data
    process-Agrees false s e v =
        rw (process_data, e, length-contents s.port)
          (command_loop-Agrees (used s.port + 1) (used s.port) (record s { file = false }) v refl)
    process-Agrees true s e v =
        rw (process_data, e, length-contents s.port)
          (file_loop-Agrees (used s.port + 1) (used s.port) (record s { file = true }) v refl)

    -- With the buffer's indices in range and a caller that ends the loop by the bytes of a block,
    -- `ftprocess_data` does what a function of the waiting bytes says that takes block after
    -- block off the front: between files blocks of 512 bytes, and during a file blocks behind
    -- their length in four bytes. It hands on the same blocks in order, wherever they cross the
    -- end of the array, and leaves the same bytes, its indices in range. If no block was the
    -- last, `*pcneed` is the number of bytes that are missing from the next one, or from its
    -- length. A length that does not fit an `int` with its header is a fault for both.
    pub process_data-Agrees :
        (s : Session c (List Bytes))
        → IsValid s.port
        → Agrees s.host (read_waiting s.file last (contents s.port)) (process_data (collect last) s)
    process_data-Agrees s v = process-Agrees s.file s refl v
