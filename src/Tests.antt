-- ===== src/Tests.antt =====
-- Concrete data on which the theorems are applied: a connection that takes all it is given and
-- reads two letters, and a link of the 'g' protocol over it.
pub mod Command
pub mod E
pub mod F
pub mod G
pub mod J
pub mod Prot
pub mod Resend
pub mod T
pub mod Time
use taylor_uucp.Base.{
  ℕ, zero, suc, ◌+◌, ◌-◌, ◌%◌, ◌≤◌, ◌<◌, ◌≡◌, refl, sym, inl, ap, ◌∙◌, Bool, false, true, Option,
  none, some, [], ◌∷◌, ◌++◌, append-nil, Bytes, length, length-take, take, min, arith,
}
use taylor_uucp.Prot.{Conn, Port, crecbuflen}
use taylor_uucp.Prot.Room.{IsValid}
use taylor_uucp.Prot.Transfer.{Documented}
use taylor_uucp.Base.Outcome.{done}
use taylor_uucp.G.{Link, Trans}

abbrev letters : Bytes
letters = 104 ∷ 105 ∷ []

-- What was written so far is its state.
abbrev pub loop_conn : Conn
loop_conn = record {
  Net = Bytes;
  write = λ n z. some (n ++ z);
  io = λ n z max. some (length z, take max letters, n ++ z);
  read = λ n max need timeout report. some (take max letters, n);
}

-- What is in a `some`.
abbrev get {ℓ} : {A : Type ℓ} → A → Option A → A
get d none = d
get d (some x) = x

take-length : (z : Bytes) → take (length z) z ≡ z
take-length [] = refl
take-length (b ∷ z) = ap (λ r. b ∷ r) (take-length z)

pub loop_conn-Documented : Documented loop_conn
loop_conn-Documented = record {
  wrote = λ n. n;
  write_wrote = λ n n' z e. sym (ap (get n') e);
  io_wrote = λ n n' z max csent rec e.
      let t = ap (get (csent, rec, n')) e in
      let c : csent ≡ length z = sym (ap (λ x. x.0) t) in
      sym (ap (λ x. x.2) t) ∙ ap (λ y. n ++ y) (sym (rw c (take-length z)));
  io_bounds = λ n n' z max csent rec e.
      let t = ap (get (csent, rec, n')) e in
      let c : csent ≡ length z = sym (ap (λ x. x.0) t) in
      let r : length rec ≤ max =
        omega (arith, ap length (ap (λ x. x.1) t), length-take max letters) in
      (omega arith, r, inl c);
  read_wrote = λ n n' max need timeout report rec e.
      let t = ap (get (rec, n')) e in
      (sym (ap (λ x. x.1) t), omega (arith, ap length (ap (λ x. x.0) t), length-take max letters));
}

-- A buffer that holds nothing and stands near the end of the array.
abbrev pub port_of : (ℕ → ℕ) → ℕ → ℕ → Port loop_conn
port_of m i e = record { prec_buf = m; prec_start = i; prec_end = e; net = [] }

abbrev pub link_of : Port loop_conn → Link loop_conn Bytes
link_of p = record {
  send_seq = 1;
  remote_ack = 0;
  retransmit_seq = none;
  rec_seq = 2;
  local_ack = 0;
  request_winsize = 7;
  remote_winsize = 7;
  remote_segsize = 1;
  remote_packsize = 64;
  packet_control = 0;
  timeout = 20;
  retries = 6;
  garbage_data = 10000;
  max_errors = some 100;
  error_decay = 10;
  short_packets = true;
  sent_packets = 0;
  resent_packets = 0;
  delayed_packets = 0;
  rec_packets = 0;
  bad_hdr = 0;
  bad_checksum = 0;
  bad_order = 0;
  remote_rejects = 0;
  remote_duprrs = 0;
  error_level = 0;
  expect_bad_order = 0;
  send_buffers = λ i j. 0;
  log_sighup = true;
  port = p;
  host = [];
}

-- A caller that keeps the data that it is given.
abbrev pub keeper : Trans loop_conn Bytes
keeper = record {
  got_data = λ z z' acked s. done false (record s { host = s.host ++ z ++ z' });
  window_acked = λ all h. h;
}
