-- ===== src/Tests/E.antt =====
-- prote.c on a file of two bytes that arrives in pieces of three.
use taylor_uucp.Base.{
  refl, min, false, none, some, [], ◌∷◌, ◌++◌, Bytes, length, length-take, take, drop,
  take-append-drop, arith,
}
use taylor_uucp.Command.Number.{pos}
use taylor_uucp.Prot.{Conn, Port}
use taylor_uucp.Prot.Delivers.{Delivers}
use taylor_uucp.E.{Session, announce, wait}
use taylor_uucp.E.Number.{decimal}
use taylor_uucp.E.File.{keeper, ends_file}
use taylor_uucp.E.RoundTrip.{awaiting}
use taylor_uucp.E.Wait.{Ends}
use taylor_uucp.E.Wait.Announced.{wait-announced}

-- A connection whose state is what the other side has sent.
abbrev drip_conn : Conn
drip_conn = record {
  Net = Bytes;
  write = λ n z. some n;
  io = λ n z max. some (length z, [], n);
  read = λ n max need timeout report. some (take (min 3 max) n, drop (min 3 max) n);
}

abbrev drip : Delivers drip_conn
drip = record {
  rest = λ n. n;
  reads = λ n max need timeout report h l. (
    take (min 3 max) n,
    drop (min 3 max) n,
    refl,
    omega (arith, length-take (min 3 max) n),
    omega (arith, length-take (min 3 max) n),
    take-append-drop (min 3 max) n,
  );
}

abbrev session : Port drip_conn → Session drip_conn Bytes
session p = record { buf = none; file = false; bytes = pos 0; timeout = 120; port = p; host = [] }

-- The file, and a byte that follows it.
abbrev hi : Bytes
hi = 104 ∷ 105 ∷ 9 ∷ []

abbrev sender : Session drip_conn Bytes
sender = session (record {
  prec_buf = λ i. 0;
  prec_start = 16380;
  prec_end = 16380;
  net = announce (pos 2) ++ hi;
})

wait-announced_example :
    Ends drip [] (104 ∷ 105 ∷ []) (9 ∷ []) (wait 30 (keeper ends_file) (awaiting sender))
unfolding decimal
wait-announced_example =
    wait-announced drip 30 2 hi sender (record { start_in = omega arith; end_in = omega arith })
      (omega arith) refl (omega arith) (omega arith)
