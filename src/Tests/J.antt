-- ===== src/Tests/J.antt =====
-- protj.c on two bytes of which one is XON.
use taylor_uucp.Base.{All, ℕ, refl, [], ◌∷◌, Bytes, arith}
use taylor_uucp.Prot.{copy_in}
use taylor_uucp.J.{avoid_chars, is_avoided, encode_from, packet, index_loop}
use taylor_uucp.J.Avoid.{Spares, packet-Spares}
use taylor_uucp.J.RoundTrip.{Decodes, index_loop-Decodes}

abbrev xon_xoff : Bytes
xon_xoff = 0o21 ∷ 0o23 ∷ []

abbrev sent : Bytes
sent = 104 ∷ 0o21 ∷ []

packet-Spares_example :
    All (λ b. Spares (0o21 ∷ []) b × Spares (0o23 ∷ []) b) (packet xon_xoff sent)
unfolding avoid_chars encode_from is_avoided
packet-Spares_example =
    packet-Spares (0o21 ∷ []) (0o23 ∷ []) xon_xoff sent refl (omega arith) (omega arith)
      (omega arith)

-- The data and the one index, across the end of the array.
abbrev memory : ℕ → ℕ
memory = copy_in (copy_in (λ i. 0) 16383 (104 ∷ [])) 0 (49 ∷ 32 ∷ 65 ∷ [])

index_loop-Decodes_example : Decodes memory 16383 0 sent (index_loop 3 16383 1 3 memory)
unfolding avoid_chars encode_from is_avoided
index_loop-Decodes_example =
    index_loop-Decodes xon_xoff xon_xoff xon_xoff sent 16383 memory refl (omega arith) (omega arith)
      refl refl
