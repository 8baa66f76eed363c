-- ===== src/Tests/Resend.antt =====
-- protg.c: an acknowledgement while packets are sent again.
use taylor_uucp.Base.{some, refl, Bytes, arith}
use taylor_uucp.Base.Outcome.{Ends}
use taylor_uucp.Prot.Room.{IsValid}
use taylor_uucp.G.{Link, seq_diff}
use taylor_uucp.G.Resend.{got_ack, record_ack}
use taylor_uucp.G.Resend.Resume.{Resumed, got_ack-Resumed}
use taylor_uucp.Tests.{loop_conn, loop_conn-Documented, port_of, link_of, keeper}
use taylor_uucp.Tests.G.{sent_buffer}

-- Packets up to 4 have been sent, and packet 1 has just been sent again.
abbrev resending : Link loop_conn Bytes
resending = record (link_of (port_of (λ i. 0) 16380 3)) {
  send_seq = 5;
  remote_ack = 0;
  retransmit_seq = some 1;
  send_buffers = λ i. sent_buffer;
}

resending-IsValid : IsValid resending.port
resending-IsValid = record { start_in = omega arith; end_in = omega arith }

got_ack_example :
    Ends
      (λ _ s'. Resumed loop_conn-Documented (seq_diff 5 2) 1 (record_ack keeper 1 resending) s')
      (λ s'. IsValid s'.port)
      (got_ack keeper 1 resending)
got_ack_example =
    got_ack-Resumed loop_conn-Documented keeper 1 1 resending resending-IsValid (omega arith) refl
