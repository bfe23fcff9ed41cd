-- ===== src/Semaphore/Deadline.antt =====
-- The deadline of simple_sem_wait_timeout as a time.
use libsimple.Base.{ℕ, ◌+◌, ◌*◌, ◌%◌, ◌≤◌, ◌<◌, ◌≡◌, arith, ◌↔◌}
use libsimple.Semaphore.{Timespec, deadline}

-- A time in nanoseconds.
abbrev pub nanoseconds : Timespec → ℕ
nanoseconds ts = ts.tv_sec * 1000000000 + ts.tv_nsec

-- Whenever the clock shows a valid time, the deadline is that time and the time-out, to the
-- nanosecond; but its `tv_nsec` is a valid one, less than 1000000000, only if the nanoseconds of
-- the clock and those of the time-out do not add up to exactly 1000000000, where it is that number.
pub deadline-nanoseconds :
    (now : Timespec) (timeout_ms : ℕ)
    → now.tv_nsec < 1000000000
    → let ts = deadline now timeout_ms in
      (nanoseconds ts ≡ nanoseconds now + timeout_ms * 1000000)
      × (ts.tv_nsec ≤ 1000000000)
      × ((ts.tv_nsec ≡ 1000000000) ↔ (now.tv_nsec + timeout_ms % 1000 * 1000000 ≡ 1000000000))
unfolding deadline
deadline-nanoseconds now timeout_ms h = (ground arith, ground arith, ground arith)
