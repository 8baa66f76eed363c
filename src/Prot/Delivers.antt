-- ===== src/Prot/Delivers.antt =====
-- `freceive_data` over a connection on which the other side's bytes arrive.
use taylor_uucp.Base.{
  ℕ, ◌+◌, ◌≤◌, ◌<◌, ◌≡◌, ◌≢◌, refl, ap, ◌∙◌, Bool, true, false, some, ◌++◌, append_assoc, Bytes,
  length, ltb, ◌==◌, if◌then◌else◌, arith,
}
use taylor_uucp.Base.Outcome.{done}
use taylor_uucp.Prot.{Conn, Port, crecbuflen, room, append_read, receive_data}
use taylor_uucp.Prot.Room.{used, contents, IsValid, room_bounds, append_read_lem}

-- `rest` is what the other side has sent and was not yet read. A read that finds bytes gives some of
-- them, in order, before its timeout.
pub record Delivers (c : Conn) : Type 0 where
  pub rest : c.Net → Bytes
  pub reads :
      (n : c.Net) (max need timeout : ℕ) (report : Bool)
      → 0 < max
      → 0 < length (rest n)
      → (rec : Bytes) × (n' : c.Net) × (c.read n max need timeout report ≡ some (rec, n'))
        × (0 < length rec)
        × (length rec ≤ max)
        × (rec ++ rest n' ≡ rest n)

module _ {c : Conn} (d : Delivers c) where
  -- The bytes that wait and those that are still to be read.
  abbrev pub stream : Port c → Bytes
  stream p = contents p ++ d.rest p.net

  -- A read that took the bytes `rec`.
  pub record ReadBehind (p : Port c) (rec : Bytes) (q : Port c) : Type 0 where
    pub some_read : 0 < length rec
    pub valid : IsValid q
    pub behind : contents q ≡ contents p ++ rec
    pub same : stream q ≡ stream p

  pub receive_data-ReadBehind :
      (p : Port c) (need timeout : ℕ)
      → IsValid p
      → used p + 1 < crecbuflen
      → 0 < length (d.rest p.net)
      → (rec : Bytes) × (q : Port c) × (receive_data p need timeout true ≡ done (length rec) q)
        × ReadBehind p rec q
  unfolding receive_data
  receive_data-ReadBehind p need timeout v free some_left =
      let b = room_bounds p v in
      let full : room p ≢ 0 = λ z. omega (arith, b.2.0 z) in
      let pos_room : 0 < room p = omega arith in
      let f : (room p == 0) ≡ false = ground arith in
      let k = if ltb (room p) need then room p else need in
      let (rec, n', e, some_read, fits, left) =
        d.reads p.net (room p) k timeout true pos_room some_left in
      let (v', u', w') = append_read_lem p rec n' v fits in
      (
        rec,
        append_read p rec n',
        rw (receive_data, f, e) refl,
        record {
          some_read = some_read;
          valid = v';
          behind = w';
          same =
              ap (λ z. z ++ d.rest n') w'
              ∙ append_assoc (contents p) rec (d.rest n')
              ∙ ap (λ z. contents p ++ z) left;
        },
      )
