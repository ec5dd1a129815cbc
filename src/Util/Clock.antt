-- ===== src/Util/Clock.antt =====
-- `elapsed_time_since` against the difference of the two instants in nanoseconds.
use gnutella.Base.{◌^◌, ℕ, ◌+◌, ◌-◌, ◌*◌, ◌/◌, ◌<◌, ◌≤◌, ◌≡◌, arith}
use gnutella.Util.{elapsed_time_since}

-- An instant of the clock in nanoseconds.
abbrev pub instant : (seconds nanoseconds : ℕ) → ℕ
instant s ns = s * 1000000000 + ns

-- For two readings of a clock that has not gone back, each with fewer than 10^9 nanoseconds and
-- less than 2^31 milliseconds apart, `elapsed_time_since` is the time between them in nanoseconds
-- divided by one million and rounded down.
pub elapsed_time_since-instant :
    (begin_s begin_ns now_s now_ns : ℕ)
    → begin_ns < 1000000000
    → now_ns < 1000000000
    → instant begin_s begin_ns ≤ instant now_s now_ns
    → (instant now_s now_ns - instant begin_s begin_ns) / 1000000 < 2 ^ 31
    → elapsed_time_since begin_s begin_ns now_s now_ns
      ≡ (instant now_s now_ns - instant begin_s begin_ns) / 1000000
unfolding elapsed_time_since
elapsed_time_since-instant begin_s begin_ns now_s now_ns b n h small = ground arith
