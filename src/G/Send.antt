-- ===== src/G/Send.antt =====
-- protg.c: waiting for packets, and `fgsenddata`, which makes a data packet and sends it.
pub mod Acks
pub mod Frame
pub mod Place
use Place.{Placed, place_data}
use taylor_uucp.Base.{
  ℕ, zero, suc, ◌+◌, ◌-◌, ◌*◌, ◌/◌, ◌%◌, ◌^◌, Bool, true, false, not, ◌&&◌, ◌||◌, Option, none,
  some, Bytes, length, take, drop, replicate, ◌++◌, bit_xor, ltb, leb, ◌==◌, ◌!=◌, if◌then◌else◌,
}
use taylor_uucp.Base.Outcome.{Outcome, done, failed, stuck, ◌then◌}
use taylor_uucp.Prot.{Conn, Port, crecbuflen, update, copy_in, receive_data}
use taylor_uucp.G.{
  Link, Trans, framelen, rj, rr, next_seq, seq_diff, low_bits, shr, header_xor, read_mem, on_port,
  transmit, send_control, send_acks,
}
use taylor_uucp.G.Checksum.{igchecksum}
use taylor_uucp.G.Frame.{data_check, data_control}
use taylor_uucp.G.Resend.{resend_next}
use taylor_uucp.G.Receive.{process_data}

-- What `fgsenddata` writes of the header once the control byte is known.
unfoldable pub end_header : ℕ → ℕ → ℕ → (ℕ → ℕ) → ℕ → ℕ
end_header z ctl chk m =
    let check = data_check chk ctl in
    let lo = low_bits check 8 in
    let hi = shr check 8 in
    update (update (update (update m (z + 4) ctl) (z + 2) lo) (z + 3) hi) (z + 5)
      (header_xor (m (z + 1)) lo hi ctl)

-- The loop of `fgsendcmd` that looks for a size above that of the command.
pub over : ℕ → ℕ → ℕ → ℕ
over zero size clen = size
over (suc f) size clen = let next = over f (size * 2) clen in if leb size clen then next else size

module _ {c : Conn} {H : Type 0} where
  -- `freceive_data` on the port of the link, with `freport` TRUE.
  link_receive : ℕ → ℕ → Link c H → Outcome (Link c H) ℕ
  link_receive need timeout s = on_port s (receive_data s.port need timeout true)

  -- A read of fewer bytes than were wanted, the second time in a row, skips a byte.
  abbrev after_data : ℕ → ℕ → ℕ → Link c H → ℕ × Link c H
  after_data need crec short s =
      if leb need crec
      then (0, s)
      else if ltb 1 (short + 1)
      then (
        0,
        record s { port = record (s.port) { prec_start = (s.port.prec_start + 1) % crecbuflen } },
      )
      else (short + 1, s)

  -- A read that timed out: the oldest packet that is not acknowledged is sent again or, if there
  -- is none, the packet that is expected is asked for.
  after_timeout : Link c H → Outcome (Link c H) (Unit {0})
  unfolding resend_next
  after_timeout s =
      let next = next_seq s.remote_ack in
      let acked = if s.local_ack != s.rec_seq then send_acks s else done tt s in
      if next != s.send_seq
      then (resend_next next s then λ _ s'. done tt (record s' { retransmit_seq = some next }))
      else (acked then λ _ s'. send_control rj s'.rec_seq s')

  -- The loop of `fgwait_for_packet`, within a number of rounds: `ctimeouts`, `cgarbage`, `cshort`.
  wait_loop :
      ℕ → ℕ → Trans c H → Bool → ℕ → ℕ → ℕ → ℕ → ℕ → Link c H → Outcome (Link c H) (Unit {0})
  unfolding after_timeout link_receive
  wait_loop zero rounds t return_control timeout retries timeouts garbage short s = stuck
  wait_loop (suc f) rounds t return_control timeout retries timeouts garbage short s =
      process_data rounds t true return_control s then λ (exit, need?, found) s₁.
      let need : ℕ = elim need? [ none ↦ 0 | some n ↦ n ] in
      let timeouts₁ = if found then 0 else timeouts in
      let garbage₁ = if found then 0 else garbage in
      elim exit [
        | true ↦ done tt s₁
        | false ↦ elim (not found && ltb s₁.garbage_data garbage) [
          | true ↦ failed s₁
          | false ↦ link_receive need timeout s₁ then λ crec s₂. elim (crec != 0) [
            | true ↦
                let (short', s₃) = after_data need crec short s₂ in
                wait_loop f rounds t return_control timeout retries timeouts₁ (garbage₁ + crec)
                  short' s₃
            | false ↦ elim (ltb retries (timeouts₁ + 1)) [
              | true ↦ failed s₂
              | false ↦ after_timeout s₂ then λ _ s₃.
                  wait_loop f rounds t return_control timeout retries (timeouts₁ + 1) garbage₁ short
                    s₃
            ]
          ]
        ]
      ]

  -- `fgwait_for_packet`.
  pub wait_for_packet : ℕ → Trans c H → Bool → ℕ → ℕ → Link c H → Outcome (Link c H) (Unit {0})
  unfolding wait_loop
  wait_for_packet rounds t return_control timeout retries s =
      wait_loop rounds rounds t return_control timeout retries 0 0 0 s

  -- `fgwait`.
  pub wait : ℕ → Trans c H → Link c H → Outcome (Link c H) (Unit {0})
  unfolding wait_for_packet
  wait rounds t s = wait_for_packet rounds t false s.timeout s.retries s

  -- The window is closed.
  abbrev pub window_closed : Link c H → Bool
  window_closed s =
      s.send_seq == s.remote_ack || ltb s.remote_winsize (seq_diff s.send_seq s.remote_ack)

  -- The loop of `fgsenddata` that waits for room in the receiver's window.
  window_loop : ℕ → ℕ → Trans c H → Link c H → Outcome (Link c H) (Unit {0})
  unfolding wait_for_packet
  window_loop zero rounds t s = stuck
  window_loop (suc f) rounds t s = elim (window_closed s) [
    | true ↦
        wait_for_packet rounds t true s.timeout s.retries s then λ _ s'. window_loop f rounds t s'
    | false ↦ done tt s
  ]

  -- The loop of `fgsenddata` that acknowledges all packets but the last.
  pub earlier_acks : ℕ → Link c H → Outcome (Link c H) (Unit {0})
  earlier_acks zero s = stuck
  earlier_acks (suc f) s = elim (ltb 1 (seq_diff s.rec_seq s.local_ack)) [
    | true ↦
        let ack = next_seq s.local_ack in
        send_control rr ack (record s { local_ack = ack }) then λ _ s'. earlier_acks f s'
    | false ↦ done tt s
  ]

  -- `fgsenddata` from the control byte on. The packet starts at offset `z` of the send buffer.
  finish_packet : ℕ → ℕ → ℕ → ℕ → Link c H → Outcome (Link c H) (Unit {0})
  unfolding end_header
  finish_packet tt' z size chk s =
      let seq = s.send_seq in
      let m = end_header z (data_control tt' seq s.rec_seq) chk (s.send_buffers seq) in
      let s₁ = record s {
        local_ack = s.rec_seq;
        send_buffers = λ i. if i == seq then m else s.send_buffers i;
        send_seq = next_seq seq;
        sent_packets = s.sent_packets + 1;
      } in
      elim s.retransmit_seq [
        | none ↦ transmit (read_mem m z (framelen + size)) s₁
        | some _ ↦ done tt (record s₁ { delayed_packets = s₁.delayed_packets + 1 })
      ]

  -- `fgsenddata`, for `cdata` bytes that are at offset 8 of the next send buffer. More bytes than
  -- the packet size are a call of `ulog (LOG_FATAL)`.
  pub send_data_packet : ℕ → Trans c H → ℕ → Link c H → Outcome (Link c H) (Unit {0})
  unfolding window_loop earlier_acks finish_packet
  send_data_packet rounds t cdata s =
      let seq = s.send_seq in
      let p =
        place_data s.remote_packsize s.remote_segsize s.short_packets cdata (s.send_buffers seq) in
      let s₁ = record s { send_buffers = λ i. if i == seq then p.mem else s.send_buffers i } in
      elim (ltb s.remote_packsize cdata) [
        | true ↦ stuck
        | false ↦ elim (igchecksum (read_mem p.mem (p.header + framelen) p.size) p.size) [
          | none ↦ stuck
          | some chk ↦ window_loop rounds rounds t s₁ then λ _ s₂.
              earlier_acks 8 s₂ then λ _ s₃. finish_packet p.tt p.header p.size chk s₃
        ]
      ]

  -- Data put where `zggetspace` says.
  abbrev pub fill_space : Bytes → Link c H → Link c H
  fill_space z s =
      let m = copy_in (s.send_buffers s.send_seq) 8 z in
      record s { send_buffers = λ i. if i == s.send_seq then m else s.send_buffers i }

  -- The loop of `fgsendcmd`, within a number of rounds, which the length of the command bounds.
  command_loop : ℕ → ℕ → Trans c H → Bytes → Link c H → Outcome (Link c H) (Unit {0})
  unfolding send_data_packet over
  command_loop zero rounds t z s = stuck
  command_loop (suc f) rounds t z s =
      let size =
        if leb s.remote_packsize 64 || not s.short_packets
        then s.remote_packsize
        else over (length z + 1) 32 (length z) in
      let last = z ++ replicate (size - length z) 0 in
      let head = take s.remote_packsize z in
      elim (ltb (length z) s.remote_packsize) [
        | true ↦ send_data_packet rounds t size (fill_space last s)
        | false ↦ send_data_packet rounds t s.remote_packsize (fill_space head s) then λ _ s'.
            command_loop f rounds t (drop s.remote_packsize z) s'
      ]

  -- `fgsendcmd`.
  pub send_command : ℕ → Trans c H → Bytes → Link c H → Outcome (Link c H) (Unit {0})
  unfolding command_loop
  send_command rounds t z s = command_loop (length z + 1) rounds t z s
