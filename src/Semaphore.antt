-- ===== src/Semaphore.antt =====
-- src/semaphore.c: the deadline of simple_sem_wait_timeout. The count of a semaphore and the threads
-- that wait for it are in ThreadPool and Thread.
pub mod Deadline
use libsimple.Base.{ℕ, ◌+◌, ◌-◌, ◌*◌, ◌/◌, ◌%◌, if◌then◌else◌, ltb}
use libsimple.Base.Int.{ℤ, pos, minus_one}
use libsimple.Fd.{is_minus_one}

-- struct timespec, with a time that is not before 1970
pub record Timespec : Type 0 where
  pub tv_sec : ℕ
  pub tv_nsec : ℕ

-- `if (ts.tv_nsec > 1000000000) { … }`
unfoldable pub carry : Timespec → Timespec
carry ts =
    if ltb 1000000000 ts.tv_nsec
    then record { tv_sec = ts.tv_sec + 1; tv_nsec = ts.tv_nsec - 1000000000 }
    else ts

-- The deadline that simple_sem_wait_timeout computes, for a time-out that is not negative.
unfoldable pub deadline : Timespec → ℕ → Timespec
unfolding carry
deadline now timeout_ms = carry (record {
  tv_sec = now.tv_sec + timeout_ms / 1000;
  tv_nsec = now.tv_nsec + timeout_ms % 1000 * 1000000;
})

-- simple_sem_wait_timeout; `timedwait` is what `sem_timedwait` returns for a deadline.
unfoldable pub wait_timeout : (Timespec → ℤ) → Timespec → ℕ → ℤ
unfolding is_minus_one
wait_timeout timedwait now timeout_ms =
    if is_minus_one (timedwait (deadline now timeout_ms)) then minus_one else pos 0
