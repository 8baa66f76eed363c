-- ===== src/Time/Parse/Midnight.antt =====
-- Hours that end at midnight, written 0000.
use taylor_uucp.Base.{ℕ, ◌*◌, ◌<◌, ◌≡◌, some, [], arith}
use taylor_uucp.Time.{Compare, add_span, time_match}
use taylor_uucp.Time.Parse.{add_day}

-- Hours of a day from `s` to 0000, with `s` after 0000 and before 2400, match at 0000 at the
-- start of that day, which is not within them.
pub midnight_matches :
    (cmp : Compare) (val retry day s : ℕ)
    → 0 < s
    → s < 24 * 60
    → time_match (day * 24 * 60) (add_day cmp val retry day s 0 []) ≡ some (val, retry)
unfolding time_match add_day add_span
midnight_matches cmp val retry day s h k = ground arith
