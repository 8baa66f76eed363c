-- ===== src/Tests/F.antt =====
-- protf.c on a file that needs every kind of character.
use taylor_uucp.Base.{
  ◌*◌, ◌≤◌, ◌≡◌, refl, false, [], ◌∷◌, List, Bytes, All, AllBytes, length, arith,
}
use taylor_uucp.Base.{ℕ, ◌++◌, ◌<◌, ◌%◌, ◌^◌, ◌⊎◌, true, none, some}
use taylor_uucp.Base.Outcome.{done, ◌then◌, Ends}
use taylor_uucp.Base.{get_or, ◌+◌, ◌-◌}
use taylor_uucp.Base.Outcome.{Empty}
use taylor_uucp.Prot.{Port}
use taylor_uucp.Prot.Room.{contents}
use taylor_uucp.F.Decode.{process_bytes}
use taylor_uucp.F.Decode.Reads.{all_contents, process_reads, process_reads-encode}
use taylor_uucp.F.Decode.Runs.{keep}
use taylor_uucp.F.Decode.Ring.{Taken, process_bytes-encode}
use taylor_uucp.F.File.{
  Files, Transfer, no_handler, await_cksum, send_ack, hex4, ask_again, got_checksum,
}
use taylor_uucp.F.File.Answer.{got_checksum_accepts, ask_again_bounded}
use taylor_uucp.Tests.{loop_conn, port_of}
use taylor_uucp.F.{Session, encode, encode_byte, sum_check}
use taylor_uucp.F.Bounds.{Printable, encode-Printable}
use taylor_uucp.F.RoundTrip.{scans, concat, whole, decode-encode}

abbrev sample : Bytes
sample = 0 ∷ 65 ∷ 127 ∷ 128 ∷ 200 ∷ 255 ∷ []

sample-AllBytes : AllBytes sample
sample-AllBytes = omega arith

-- The encoded file in two reads, the first of which ends in a special character.
abbrev reads : List Bytes
reads = (122 ∷ 64 ∷ 65 ∷ 123 ∷ []) ∷ (63 ∷ 124 ∷ 64 ∷ 125 ∷ 72 ∷ 126 ∷ 63 ∷ []) ∷ []

reads-encode : concat reads ≡ encode sample
unfolding encode encode_byte
reads-encode = refl

encode_example :
    All Printable (encode sample)
    × (length sample ≤ length (encode sample))
    × (length (encode sample) ≤ 2 * length sample)
encode_example = encode-Printable sample sample-AllBytes

decode-encode_example :
    scans 0 0xffff reads ≡ whole (sum_check 0xffff sample) sample (length (encode sample))
decode-encode_example = decode-encode sample reads 0xffff sample-AllBytes reads-encode

-- A caller whose file is open and empty, and whose queues do nothing.
abbrev quiet : Files loop_conn ℕ
quiet = record {
  is_open = λ h. true;
  rewind = λ h. some 0;
  truncate = λ h. some 0;
  queue_send = λ q s. done tt s;
  queue_receive = λ q s. done tt s;
  sent = λ q s. done tt s;
  received = λ q s. done tt s;
}

abbrev transfer : Transfer
transfer = record {
  sendfn = no_handler;
  recfn = await_cksum;
  info = true;
  bsend = 0;
  pos = 6;
  sendfile = false;
  recfile = true;
  cmd = true;
}

-- The receiver of a file whose checksum is `check`.
abbrev session : ℕ → Session loop_conn ℕ
session check = record {
  timeout = 120;
  max_retries = 2;
  file = false;
  check = check;
  special = 0o176;
  retries = 1;
  acked = false;
  sent_data = 0;
  sent_bytes = 0;
  rec_data = 6;
  rec_bytes = 11;
  send_retries = 0;
  rec_retries = 1;
  port = port_of (λ i. 0) 0 0;
  host = 6;
}

got_checksum_example :
    let s = session (scans 0 0xffff reads).check in
    let q' = record transfer { bsend = 71; sendfn = send_ack; recfn = no_handler } in
    got_checksum quiet (hex4 (sum_check 0xffff sample % 2 ^ 16) ++ 0 ∷ []) transfer s
    ≡ (quiet.queue_send q' s then λ _ s'. done q' s')
got_checksum_example =
    got_checksum_accepts quiet sample reads transfer (session (scans 0 0xffff reads).check)
      sample-AllBytes reads-encode refl

ask_again_example :
    Ends
      (λ q' s'.
        (s'.retries ≡ 2)
        × ((q'.bsend ≡ 82)
              × (s'.retries ≤ 2)
              × (s'.check ≡ 0xffff)
              × (s'.special ≡ 0)
              × (s'.file ≡ true)
            ⊎ (q'.bsend ≡ 81) × (2 < s'.retries)))
      (λ s'. (true ≡ false) ⊎ (quiet.truncate 6 ≡ none))
      (ask_again quiet transfer (session 0))
ask_again_example = ask_again_bounded quiet transfer (session 0)

-- The encoded file round the end of the receive buffer, where it is expected.
abbrev waiting : Session loop_conn Bytes
waiting = record {
  timeout = 120;
  max_retries = 2;
  file = true;
  check = 0xffff;
  special = 0;
  retries = 0;
  acked = false;
  sent_data = 0;
  sent_bytes = 0;
  rec_data = 0;
  rec_bytes = 0;
  send_retries = 0;
  rec_retries = 0;
  port = port_of (λ i. get_or (concat reads) ((i + 16384 - 16380) % 16384) 0) 16380 7;
  host = 1 ∷ [];
}

waiting-contents : contents waiting.port ≡ encode sample
unfolding encode encode_byte
waiting-contents = refl

process_bytes_example : Ends (Taken waiting sample) (λ _. Empty) (process_bytes 3 keep waiting)
process_bytes_example =
    process_bytes-encode waiting sample (record { start_in = omega arith; end_in = omega arith })
      sample-AllBytes refl refl waiting-contents

-- The two reads, of which the first goes round the end of the receive buffer and ends between the
-- two characters of a byte.
abbrev first_read : Port loop_conn
first_read =
    port_of (λ i. get_or (122 ∷ 64 ∷ 65 ∷ 123 ∷ []) ((i + 16384 - 16382) % 16384) 0) 16382 2

abbrev second_read : Port loop_conn
second_read =
    port_of (λ i. get_or (63 ∷ 124 ∷ 64 ∷ 125 ∷ 72 ∷ 126 ∷ 63 ∷ []) ((i + 16384 - 2) % 16384) 0) 2 9

read_contents : all_contents (first_read ∷ second_read ∷ []) ≡ encode sample
unfolding encode encode_byte
read_contents = refl

process_reads-encode_example :
    Ends
      (λ _ s'.
        (s'.host ≡ waiting.host ++ sample)
        × (s'.check ≡ sum_check waiting.check sample)
        × (s'.special ≡ 0)
        × (s'.rec_data ≡ waiting.rec_data + length sample)
        × (s'.rec_bytes ≡ waiting.rec_bytes + length (encode sample)))
      (λ _. Empty)
      (process_reads (first_read ∷ second_read ∷ []) waiting)
process_reads-encode_example =
    process_reads-encode (first_read ∷ second_read ∷ []) waiting sample
      (
        record { start_in = omega arith; end_in = omega arith },
        (record { start_in = omega arith; end_in = omega arith }, tt),
      )
      sample-AllBytes refl refl read_contents
