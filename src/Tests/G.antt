-- ===== src/Tests/G.antt =====
-- protg.c on small packets, some of which lie across the end of the receive buffer.
use taylor_uucp.Base.{
  ℕ, ◌+◌, ◌-◌, ◌*◌, ◌/◌, ◌%◌, ◌≡◌, ◌≢◌, refl, false, true, some, [], ◌∷◌, ◌++◌, Bytes, length,
  get_or, arith,
}
use taylor_uucp.Base.Outcome.{done, Ends, state_of}
use taylor_uucp.Prot.{crecbuflen, copy_in, room, send_loop, send_data}
use taylor_uucp.Prot.Room.{IsValid, used, contents}
use taylor_uucp.G.{
  Link, framelen, packlen, seq_diff, read_mem, packet_start, send_acks, acks_loop, send_control,
  control_frame, transmit, shortdata,
}
use taylor_uucp.G.Acks.{Acked, send_acks_lem}
use taylor_uucp.G.Checksum.{
  checksum, igchecksum, igchecksum2, igchecksum_lem, igchecksum2_lem, sums, iteration,
}
use taylor_uucp.G.Frame.{data_header, data_control, IsFramed}
use taylor_uucp.G.Payload.{segment}
use taylor_uucp.G.Receive.{process_round, accept}
use taylor_uucp.G.Receive.Actions.{again, count_packet}
use taylor_uucp.G.Receive.Arrive.{Arrived, Whole, process_round-Arrived}
use taylor_uucp.G.Receive.Damaged.{Refused, process_round_damaged}
use taylor_uucp.G.Receive.Deliver.{Delivers, accepted, process_round-segment}
use taylor_uucp.G.Receive.Parts.{Blocks, data_blocks, header_of}
use taylor_uucp.G.Send.Place.Fit.{Fits, Chosen}
use taylor_uucp.G.Send.Place.Layout.{Laid, place_data_lem}
use taylor_uucp.G.Resend.{adjust_ack}
use taylor_uucp.G.Resend.Adjust.{adjust_ack_lem}
use taylor_uucp.G.RoundTrip.{layout, layout_control, sent_bytes, process_round-place_data}
use taylor_uucp.Base.{◌≤◌, ◌^◌, ◌<◌}
use taylor_uucp.G.Start.{segment_index, sizes}
use taylor_uucp.G.Start.Sizes.{segment_index_lem, sizes_lem}
use taylor_uucp.G.Send.{end_header, earlier_acks}
use taylor_uucp.G.Send.Acks.{Earlier, earlier_acks_lem}
use taylor_uucp.G.Send.Place.{place_data, packet_size, place_sized, fit, zero_fill}
use taylor_uucp.G.Send.Frame.{place_data-bytes}
use taylor_uucp.Tests.{letters, loop_conn, loop_conn-Documented, port_of, link_of, keeper}

-- Checksums.
eight : Bytes
eight = 1 ∷ 2 ∷ 3 ∷ 4 ∷ 0 ∷ 255 ∷ 7 ∷ 8 ∷ []

igchecksum_example : igchecksum eight (length eight) ≡ some (checksum eight)
unfolding eight
igchecksum_example = igchecksum_lem 2 eight refl (omega arith) (omega arith)

igchecksum2_example :
    igchecksum2 letters (length letters) eight (length eight) ≡ some (checksum (letters ++ eight))
unfolding eight
igchecksum2_example = igchecksum2_lem letters eight (omega arith) (omega arith)

-- A send buffer with two letters for a segment of 32 bytes.
abbrev filled : ℕ → ℕ
filled = copy_in (λ i. 9) 8 letters

place_data_example :
    let p = place_data 64 1 true 2 filled in
    let seg = segment p.size (read_mem filled 8 2) in
    (igchecksum (read_mem p.mem (p.header + framelen) p.size) p.size ≡ some (checksum seg))
    × (read_mem (end_header p.header 0x92 (checksum seg) p.mem) p.header (framelen + p.size)
        ≡ data_header p.seg 0x92 (checksum seg) ++ seg)
place_data_example = place_data-bytes 1 true 2 0x92 filled (omega arith) (omega arith)

-- A packet with two letters whose six header bytes end at the end of the receive buffer.
abbrev letters_control : ℕ
letters_control = data_control shortdata 3 0

abbrev letters_packet : Bytes
letters_packet = data_header 1 letters_control (checksum (segment 32 letters)) ++ segment 32 letters

abbrev ring : ℕ → ℕ
ring i = get_or letters_packet ((i + 16384 - 16374) % 16384) 0

abbrev received : Link loop_conn Bytes
received = link_of (port_of ring 16374 28)

received-Arrived : Arrived received 1 letters_control (segment (packlen 1) letters) []
unfolding checksum sums iteration
received-Arrived = record {
  valid = record { start_in = omega arith; end_in = omega arith };
  bytes = refl;
  size = refl;
  k_pos = omega arith;
  k_lt = omega arith;
  not_control = omega arith;
  not_altchan = omega arith;
}

-- The state after the packets up to this one have been acknowledged, and six letters read.
abbrev acked : Link loop_conn Bytes
acked =
    let s = count_packet (accepted keeper 1 letters_control received) in state_of s (send_acks s)

-- There is room for them.
acked_room :
    (send_acks (count_packet (accepted keeper 1 letters_control received)) ≡ done tt acked)
    × (used acked.port ≡ 6)
unfolding send_acks acks_loop send_control control_frame transmit send_data send_loop room
acked_room = (refl, refl)

process_round-segment_example :
    Delivers keeper false acked (process_round keeper true false false received) letters
process_round-segment_example =
    process_round-segment loop_conn-Documented keeper true false false received acked 1
      letters_control letters [] received-Arrived (omega arith) refl refl refl (omega arith)
      acked_room.0 (omega (arith, acked_room.1))

send_acks_example :
    Ends
      (λ _ s'. Acked loop_conn-Documented (seq_diff 2 0) received s')
      (λ s'. IsValid s'.port)
      (send_acks received)
send_acks_example =
    send_acks_lem loop_conn-Documented received received-Arrived.valid (omega arith) (omega arith)

earlier_acks_example :
    Ends
      (λ _ s'.
        Earlier loop_conn-Documented 1 received s' × (seq_diff received.rec_seq s'.local_ack < 2))
      (λ s'. IsValid s'.port)
      (earlier_acks 8 received)
earlier_acks_example =
    earlier_acks_lem loop_conn-Documented received received-Arrived.valid (omega arith)
      (omega arith)

-- That packet in a send buffer, at offset 1.
abbrev pub sent_buffer : ℕ → ℕ
sent_buffer = copy_in (λ i. 0) 1 letters_packet

sent_buffer-IsFramed : IsFramed sent_buffer 1 1 letters_control (checksum (segment 32 letters))
unfolding checksum sums packet_start
sent_buffer-IsFramed = record {
  start = refl;
  byte_dle = refl;
  byte_k = refl;
  byte_low = refl;
  byte_high = refl;
  byte_control = refl;
  byte_xor = refl;
}

adjust_ack_example :
    (packet_start (adjust_ack 7 sent_buffer) ≡ 1)
    × (read_mem (adjust_ack 7 sent_buffer) 1 (framelen + 32)
        ≡ data_header 1 (letters_control / 8 * 8 + 7) (checksum (segment 32 letters))
          ++ read_mem sent_buffer 7 32)
unfolding checksum
adjust_ack_example =
    adjust_ack_lem sent_buffer-IsFramed (omega arith) (omega arith) (omega arith) 32

process_round-Arrived_example :
    process_round keeper true false false received
    ≡ accept keeper true false false
        (header_of (data_header 1 letters_control (checksum (segment 32 letters))))
        (data_blocks received.port 32)
        32
        received
process_round-Arrived_example =
    process_round-Arrived keeper true false false received 1 letters_control (segment 32 letters) []
      received-Arrived

place_data_lem_example :
    let p = place_data 64 1 true 2 filled in
    Laid (read_mem filled 8 2) p × Fits 2 2 (p.seg, p.size) × Chosen 64 true 2 p.size
place_data_lem_example = place_data_lem 1 true 2 filled (omega arith) (omega arith)

-- Five bytes, the first of which says that two of them are not used, divided behind the second.
abbrev divided : Blocks
divided = record { first = 100; cfirst = 2; second = some 0; csecond = 3 }

-- What is sent for the filled buffer, in the receive buffer of the other side.
abbrev sent_ring : ℕ → ℕ
sent_ring i =
    get_or (sent_bytes (layout 1 true 2 filled) (layout_control 1 true 2 filled 3 0) letters)
      ((i + 16384 - 16374) % 16384) 0

abbrev other_side : Link loop_conn Bytes
other_side = link_of (port_of sent_ring 16374 60)

other_side-contents :
    contents other_side.port
    ≡ sent_bytes (layout 1 true 2 filled) (layout_control 1 true 2 filled 3 0) (read_mem filled 8 2)
      ++ []
unfolding checksum sums place_data packet_size place_sized fit zero_fill end_header
other_side-contents = refl

abbrev other_acked : Link loop_conn Bytes
other_acked =
    let s = count_packet (
      accepted keeper (layout 1 true 2 filled).seg (layout_control 1 true 2 filled 3 0)
        other_side) in
    state_of s (send_acks s)

other_acked_room :
    (send_acks (
        count_packet (
          accepted keeper
            (layout 1 true 2 filled).seg
            (layout_control 1 true 2 filled 3 0)
            other_side))
      ≡ done tt other_acked)
    × (used other_acked.port + packlen (layout 1 true 2 filled).seg ≤ crecbuflen)
unfolding send_acks acks_loop send_control control_frame transmit send_data send_loop room
    place_data packet_size place_sized fit
other_acked_room = (refl, omega arith)

process_round-place_data_example :
    Delivers keeper false other_acked
      (process_round keeper true false false other_side)
      (read_mem filled 8 2)
process_round-place_data_example =
    process_round-place_data loop_conn-Documented keeper true false false other_side other_acked 1
      true 2 3 0 filled [] (omega arith) (omega arith) (omega arith) (omega arith)
      (record { start_in = omega arith; end_in = omega arith }) other_side-contents refl refl
      (omega arith) other_acked_room.0 other_acked_room.1

-- The packet under a header with another checksum.
abbrev damaged_packet : Bytes
damaged_packet = data_header 1 letters_control 0x1234 ++ segment 32 letters

abbrev damaged_ring : ℕ → ℕ
damaged_ring i = get_or damaged_packet ((i + 16384 - 16374) % 16384) 0

abbrev damaged : Link loop_conn Bytes
damaged = link_of (port_of damaged_ring 16374 28)

damaged-Whole : Whole damaged 1 letters_control 0x1234 (segment (packlen 1) letters) []
damaged-Whole = record {
  valid = record { start_in = omega arith; end_in = omega arith };
  bytes = refl;
  size = refl;
  k_pos = omega arith;
  k_lt = omega arith;
  not_control = omega arith;
  not_altchan = omega arith;
}

damaged_checksum : 0x1234 ≢ checksum (segment (packlen 1) letters)
unfolding checksum sums iteration
damaged_checksum = omega arith

process_round_damaged_example :
    Ends
      (λ next s'. (next ≡ again false) × Refused loop_conn-Documented damaged letters_control s')
      (λ s'. IsValid s'.port)
      (process_round keeper true false false damaged)
process_round_damaged_example =
    process_round_damaged loop_conn-Documented keeper true false false damaged 1 letters_control
      0x1234 (segment (packlen 1) letters) [] damaged-Whole (omega arith) (omega arith)
      damaged_checksum (omega arith) (omega arith)

segment_index_example :
    (segment_index 100 ≤ 7)
    × (2 ^ (segment_index 100 + 5) ≤ 100)
    × (100 < 2 ^ (segment_index 100 + 6))
segment_index_example = segment_index_lem 100 (omega arith) (omega arith)

sizes_example : let r = sizes 9 1000 5 3 in (r.0 ≤ 7) × (r.1 ≤ 7) × (r.2 ≡ 2 ^ (r.1 + 1 + 4))
sizes_example = sizes_lem 9 1000 5 3 (omega arith) (omega arith)
