-- ===== src/Pmtud/Deadline.antt =====
-- Until when the search waits for a reply, and the walk of the thread over the links
-- (libknet/threads_pmtud.c).
use kronosnet.Base.{ℕ, ◌+◌, ◌*◌, ◌%◌, ◌≤◌, ◌<◌, ◌≡◌, arith, ◌==◌}
use kronosnet.State.{Timespec}
use kronosnet.Pmtud.Round.{carry, reply_deadline}

abbrev pub nanoseconds : Timespec → ℕ
nanoseconds ts = ts.tv_sec * 1000000000 + ts.tv_nsec

-- The deadline is the time that was asked for, in seconds and at most a full second of nanoseconds; it
-- is a full second, which a timespec does not allow, if the two parts add up to exactly that.
pub reply_deadline-exact :
    (now : Timespec) (timeout : ℕ)
    → now.tv_nsec < 1000000000
    → let end = reply_deadline now timeout in
      (nanoseconds end ≡ nanoseconds now + timeout * 1000)
      × (end.tv_nsec ≤ 1000000000)
      × ((end.tv_nsec == 1000000000) ≡ (now.tv_nsec + timeout % 1000000 * 1000 == 1000000000))
unfolding reply_deadline carry
reply_deadline-exact now timeout small = ground (arith, small)
