-- ===== src/G/Start.antt =====
-- protg.c: the three-way handshake (`fgstart`, `fgexchange_init`), and `fgshutdown`.
pub mod Sizes
use taylor_uucp.Base.{
  ℕ, zero, suc, ◌+◌, ◌-◌, ◌*◌, ◌/◌, ◌%◌, ◌^◌, Bool, true, false, not, ◌&&◌, ◌||◌, Option, none,
  some, ltb, leb, ◌==◌, ◌!=◌, if◌then◌else◌,
}
use taylor_uucp.Base.Outcome.{Outcome, done, failed, stuck, ◌then◌}
use taylor_uucp.Prot.{Conn}
use taylor_uucp.G.{
  Link, Trans, control_tt, control_xxx, control_yyy, control, close, inita, initb, initc,
  send_control,
}
use taylor_uucp.G.Send.{wait_for_packet}

-- The protocol parameters that only the handshake reads. A parameter that is negative is 0 here:
-- the code tests for 0 or less.
pub record Params : Type 0 where
  pub request_packsize : ℕ
  pub startup_retries : ℕ
  pub init_retries : ℕ
  pub init_timeout : ℕ
  pub forced_winsize : ℕ
  pub forced_packsize : ℕ

-- The loop that counts how often a number can be halved before it is 0, within a number of rounds.
pub halvings : ℕ → ℕ → ℕ
halvings zero i = 0
halvings (suc f) i = let rest = halvings f (i / 2) in if ltb 0 i then rest + 1 else 0

-- `iseg`: one less than the count, less 5, and 1 where that is out of range.
pub segment_index : ℕ → ℕ
unfolding halvings
segment_index packsize =
    let n = halvings (packsize + 1) packsize in if ltb n 6 || ltb 13 n then 1 else n - 6

-- What a control packet that was received means while `ictl` is sent.
pub data Reply : Type 0 where
  agreed : ℕ → Reply
  fall_back : Reply
  new_segsize : ℕ → Reply
  no_reply : Reply

pub reply_to : ℕ → ℕ → Reply
reply_to ictl b =
    if control_tt b != control
    then no_reply
    else if control_xxx b == ictl
    then agreed (control_yyy b)
    else if ltb (control_xxx b) ictl && ictl != inita
    then fall_back
    else if control_xxx b == inita && ictl == initc
    then fall_back
    else if control_xxx b == initb && ictl == initc
    then new_segsize (control_yyy b)
    else no_reply

-- What `fgstart` does once the handshake is over: the remote packet and window sizes, which the
-- user may force.
pub sizes : ℕ → ℕ → ℕ → ℕ → ℕ × ℕ × ℕ
unfolding halvings
sizes forced_winsize forced_packsize winsize segsize =
    let w = if ltb 0 forced_winsize && leb forced_winsize 7 then forced_winsize else winsize in
    let n = halvings (forced_packsize + 1) forced_packsize in
    if leb 32 forced_packsize && leb forced_packsize 4096
    then (w, n - 6, 2 ^ (n - 1))
    else (w, segsize, 2 ^ (segsize + 5))

module _ {c : Conn} {H : Type 0} where
  -- The inner loop of `fgexchange_init`. The value is `*piset` if the packet has come, `none` if
  -- the time is over; a fall-back is FALSE. `now` reads the clock, and `first` is the callee's first
  -- time, when it has sent nothing yet. A failure of `fgwait_for_packet` ends the loop. Where the
  -- callee's answer fails, `*piset` is not kept: `fgstart` sets it again before it returns TRUE.
  listen :
      ℕ
      → ℕ
      → (c.Net → ℕ)
      → Trans c H
      → ℕ
      → ℕ
      → Bool
      → ℕ
      → ℕ
      → Link c H
      → Outcome (Link c H) (Option ℕ)
  listen zero rounds now t ictl ival first itime left s = stuck
  listen (suc f) rounds now t ictl ival first itime left s =
      let go_on : Link c H → Outcome (Link c H) (Option ℕ) = λ s'.
        let left' = left + itime - now s'.port.net in
        elim (ltb 0 left') [
          | false ↦ done none s'
          | true ↦ listen f rounds now t ictl ival first itime left' s'
        ] in
      elim (wait_for_packet rounds t true left 0 s) [
        | stuck ↦ stuck
        | failed s₁ ↦ done none s₁
        | done _ s₁ ↦ elim (reply_to ictl s₁.packet_control) [
          | agreed v ↦
              if first
              then (send_control ictl ival s₁ then λ _ s₂. done (some v) s₂)
              else done (some v) s₁
          | fall_back ↦ failed s₁
          | new_segsize v ↦ go_on (record s₁ { remote_segsize = v })
          | no_reply ↦ go_on s₁
        ]
      ]

  -- The outer loop of `fgexchange_init`, with the number of times left.
  exchange :
      ℕ → ℕ → (c.Net → ℕ) → Trans c H → ℕ → ℕ → Bool → Bool → ℕ → Link c H → Outcome (Link c H) ℕ
  unfolding listen
  exchange zero rounds now t ictl ival caller again timeout s = failed s
  exchange (suc n) rounds now t ictl ival caller again timeout s =
      (if caller || again then send_control ictl ival s else done tt s) then λ _ s₁.
      listen rounds rounds now t ictl ival (not (caller || again)) (now s₁.port.net) timeout s₁
      then λ v s₂. elim v [
        | some x ↦ done x s₂
        | none ↦ exchange n rounds now t ictl ival caller true timeout s₂
      ]

  -- `fgexchange_init`.
  pub exchange_init :
      ℕ → (c.Net → ℕ) → Trans c H → Params → Bool → ℕ → ℕ → Link c H → Outcome (Link c H) ℕ
  unfolding exchange
  exchange_init rounds now t q caller ictl ival s =
      exchange q.init_retries rounds now t ictl ival caller false q.init_timeout s

  -- The assignments at the start of `fgstart`.
  pub reset : Link c H → Link c H
  reset s = record s {
    send_seq = 1;
    remote_ack = 0;
    retransmit_seq = none;
    rec_seq = 0;
    local_ack = 0;
    request_winsize =
        if s.request_winsize == 0 || ltb 7 s.request_winsize then 7 else s.request_winsize;
    sent_packets = 0;
    resent_packets = 0;
    delayed_packets = 0;
    rec_packets = 0;
    bad_hdr = 0;
    bad_checksum = 0;
    bad_order = 0;
    remote_rejects = 0;
    remote_duprrs = 0;
    error_level = 0;
    expect_bad_order = 0;
  }

  -- The sizes, and the send buffers, which are made zero.
  pub settle : Params → Link c H → Link c H
  unfolding sizes
  settle q s =
      let r = sizes q.forced_winsize q.forced_packsize s.remote_winsize s.remote_segsize in
      record s {
        remote_winsize = r.0;
        remote_segsize = r.1;
        remote_packsize = r.2;
        send_buffers = λ i j. 0;
      }

  -- A `continue` where `fgexchange_init` returns FALSE.
  attempt :
      Outcome (Link c H) ℕ
      → (ℕ → Link c H → Outcome (Link c H) (Unit {0}))
      → (Link c H → Outcome (Link c H) (Unit {0}))
      → Outcome (Link c H) (Unit {0})
  attempt (done v s) k retry = k v s
  attempt (failed s) k retry = retry s
  attempt stuck k retry = stuck

  -- The loop of `fgstart`, with the number of times left, `fgota` and `fgotb`. A step that was done
  -- before only sends its packet again.
  start_loop :
      ℕ
      → ℕ
      → (c.Net → ℕ)
      → Trans c H
      → Params
      → Bool
      → Bool
      → Bool
      → Link c H
      → Outcome (Link c H) (Unit {0})
  unfolding exchange_init attempt settle
  start_loop zero rounds now t q caller got_a got_b s = failed s
  start_loop (suc n) rounds now t q caller got_a got_b s =
      let seg = segment_index q.request_packsize in
      let step_c : Link c H → Outcome (Link c H) (Unit {0}) = λ s'.
        attempt (exchange_init rounds now t q caller initc s'.request_winsize s')
          (λ v s''. done tt (settle q (record s'' { remote_winsize = v })))
          (λ s''. start_loop n rounds now t q caller true true s'') in
      let step_b : Link c H → Outcome (Link c H) (Unit {0}) = λ s'. elim got_b [
        | true ↦ send_control initb seg s' then λ _ s''. step_c s''
        | false ↦
            attempt (exchange_init rounds now t q caller initb seg s')
              (λ v s''. step_c (record s'' { remote_segsize = v }))
              (λ s''. start_loop n rounds now t q caller true false s'')
      ] in
      elim got_a [
        | true ↦ send_control inita s.request_winsize s then λ _ s'. step_b s'
        | false ↦
            attempt (exchange_init rounds now t q caller inita s.request_winsize s)
              (λ v s'. step_b (record s' { remote_winsize = v }))
              (λ s'. start_loop n rounds now t q caller false got_b s')
      ]

  -- `fgstart`, once the line is set to eight bits, and with memory for the buffers.
  pub start : ℕ → (c.Net → ℕ) → Trans c H → Params → Bool → Link c H → Outcome (Link c H) (Unit {0})
  unfolding reset start_loop
  start rounds now t q caller s =
      start_loop q.startup_retries rounds now t q caller false false (reset s)

  -- `fgshutdown`, up to the log. The answers of `fgsend_control` are not looked at.
  pub after_send : Outcome (Link c H) (Unit {0}) → Option (Link c H)
  after_send (done _ s) = some s
  after_send (failed s) = some s
  after_send stuck = none

  pub shutdown : Link c H → Outcome (Link c H) (Unit {0})
  unfolding after_send
  shutdown s = elim (after_send (send_control close 0 s)) [
    | none ↦ stuck
    | some s₁ ↦ elim (after_send (send_control close 0 s₁)) [
      | none ↦ stuck
      | some s₂ ↦ done tt (record s₂ {
        request_winsize = 7;
        timeout = 10;
        retries = 6;
        garbage_data = 10000;
        max_errors = some 100;
        error_decay = 10;
        short_packets = true;
      })
    ]
  ]
