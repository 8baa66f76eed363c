-- ===== src/Prot/Char.antt =====
-- `breceive_char` as the queue of the bytes received.
use taylor_uucp.Base.{◌≡◌, [], ◌∷◌, ◌++◌, Bytes}
use taylor_uucp.Base.Outcome.{Outcome}
use taylor_uucp.Prot.{Conn, Port, Received, char, timed_out, error}
use taylor_uucp.Prot.Room.{contents}

module _ {c : Conn} where
  -- What a caller of `breceive_char` may know of the buffer before and after.
  abbrev pub Got : Port c → Received → Port c → Type 0
  Got p (char b) q = (rec : Bytes) × (contents p ++ rec ≡ b ∷ contents q)
  Got p timed_out q = (contents p ≡ []) × (contents q ≡ [])
  Got p error q = (contents p ≡ []) × (q ≡ p)
