-- ===== src/Tests/Prot.antt =====
-- prot.c on a buffer near the end of the array.
use taylor_uucp.Base.{◌⊎◌, ◌+◌, ◌%◌, ◌≤◌, ◌<◌, ◌≡◌, ◌↔◌, true, arith}
use taylor_uucp.Base.Outcome.{Ends}
use taylor_uucp.Prot.{Port, crecbuflen, room, send_data}
use taylor_uucp.Prot.Room.{IsValid, used, room_bounds}
use taylor_uucp.Prot.Transfer.{Sent, send_data_lem}
use taylor_uucp.Tests.{letters, loop_conn, loop_conn-Documented, port_of}

-- Three bytes wait, and one more reaches the end of the array.
abbrev near_end : Port loop_conn
near_end = port_of (λ i. i % 256) 16380 16383

near_end-IsValid : IsValid near_end
near_end-IsValid = record { start_in = omega arith; end_in = omega arith }

room_bounds_example :
    (near_end.prec_end + room near_end ≤ crecbuflen)
    × (used near_end + room near_end < crecbuflen)
    × ((room near_end ≡ 0) ↔ (used near_end + 1 ≡ crecbuflen))
    × ((near_end.prec_end + room near_end ≡ crecbuflen)
        ⊎ (used near_end + room near_end + 1 ≡ crecbuflen))
room_bounds_example = room_bounds near_end near_end-IsValid

send_data_example :
    Ends
      (λ _ q. Sent loop_conn-Documented near_end letters q)
      IsValid
      (send_data near_end letters true)
send_data_example = send_data_lem loop_conn-Documented near_end letters true near_end-IsValid
