-- ===== src/Tests/T.antt =====
-- prott.c on a command and on a file of two bytes, across the end of the buffer.
use taylor_uucp.Base.{◌≡◌, ◌⊎◌, refl, true, none, [], ◌∷◌, ◌++◌, List, Bytes, arith}
use taylor_uucp.Prot.{copy_in}
use taylor_uucp.Prot.Room.{contents}
use taylor_uucp.Tests.{loop_conn, port_of}
use taylor_uucp.T.{Session, process_data}
use taylor_uucp.T.Blocks.{cut_file, exits, read_waiting}
use taylor_uucp.T.Agree.{collect, Agrees}
use taylor_uucp.T.Refine.{process_data-Agrees}
use taylor_uucp.T.Ends.{Returns, HasOverlong, process_data-Returns}
use taylor_uucp.T.RoundTrip.{Piece, ends_file, all_data, process_data-sent}

-- Two letters behind the place for their length.
abbrev hi : Piece
hi = record { memory = copy_in (λ i. 0) 4 (104 ∷ 105 ∷ []); count = 2 }

abbrev nothing : Piece
nothing = record { memory = λ i. 0; count = 0 }

-- The two letters are in the buffer, with the length at its end.
abbrev waiting : Session loop_conn (List Bytes)
waiting = record {
  buf = none;
  file = true;
  timeout = 120;
  port = port_of (copy_in (copy_in (λ i. 0) 16381 (0 ∷ 0 ∷ 0 ∷ [])) 0 (2 ∷ 104 ∷ 105 ∷ [])) 16381 3;
  host = [];
}

-- The block and the one without data.
abbrev whole : Session loop_conn (List Bytes)
whole = record {
  buf = none;
  file = true;
  timeout = 120;
  port =
      port_of
        (copy_in (copy_in (λ i. 0) 16381 (0 ∷ 0 ∷ 0 ∷ [])) 0 (2 ∷ 104 ∷ 105 ∷ 0 ∷ 0 ∷ 0 ∷ 0 ∷ []))
        16381 7;
  host = [];
}

process_data-sent_example :
    Agrees [] (exits (all_data (hi ∷ []) ++ [] ∷ []) []) (process_data (collect ends_file) whole)
process_data-sent_example =
    process_data-sent (hi ∷ []) nothing [] whole
      ((record { zero_first = refl; zero_second = refl; fits = omega arith }, omega arith), tt)
      (record { zero_first = refl; zero_second = refl; fits = omega arith }) refl refl
      (record { start_in = omega arith; end_in = omega arith }) refl

process_data_example :
    Agrees []
      (read_waiting true ends_file (contents waiting.port))
      (process_data (collect ends_file) waiting)
process_data_example =
    process_data-Agrees ends_file waiting (record { start_in = omega arith; end_in = omega arith })

process_data-Returns_example :
    Returns (process_data (collect ends_file) waiting)
    ⊎ ((true ≡ true) × HasOverlong cut_file ends_file (contents waiting.port))
process_data-Returns_example =
    process_data-Returns ends_file waiting (record { start_in = omega arith; end_in = omega arith })
