-- ===== src/Tests/Thread.antt =====
-- The theorems on src/thread.c at one call from its start to its end, and the one on
-- src/semaphore.c at a time-out over the end of a second.
use libsimple.Base.{
  ℕ, ◌+◌, ◌*◌, ◌%◌, ◌≤◌, ◌≡◌, ◌↔◌, refl, none, some, zero, suc, List, [], ◌∷◌, arith, Option,
}
use libsimple.Semaphore.{Timespec, deadline}
use libsimple.Semaphore.Deadline.{nanoseconds, deadline-nanoseconds}
use libsimple.Thread.{
  locked, written, posted, answered, leaving, WorkPhase, waiting, woken, replying, holding, Call,
  Thread, create, request, serve_step, wait_reply, wait_request, reply_with, in_phase, Reach, here,
  next, enter, caller, worker,
}
use libsimple.Thread.Inv.{AllServed}
use libsimple.Thread.Rendezvous.{replies_match, call_ends, GoesOn, steps_left}

-- There is no reply to the request 0.
abbrev successor : ℕ → Option ℕ
successor zero = none
successor (suc n) = some (suc (suc n))

abbrev thread_at : ℕ → ℕ → ℕ → ℕ → Option Call → WorkPhase → List (ℕ × ℕ) → Thread
thread_at req rpl sem_req sem_rpl call work returned = record {
  req = req;
  rpl = rpl;
  sem_req = sem_req;
  sem_rpl = sem_rpl;
  call = call;
  worker = work;
  returned = returned;
}

abbrev held : Thread
held = thread_at 5 0 0 0 (in_phase 5 posted) (holding 5) []

abbrev ended : Thread
ended = thread_at 5 6 0 0 none waiting ((5, 6) ∷ [])

held-Reach : Reach successor (create 0 0) held
unfolding create request serve_step wait_request reply_with
held-Reach =
    let entered : Reach successor (create 0 0) (thread_at 0 0 0 0 (in_phase 5 locked) waiting []) =
      next here (enter 5 refl refl) in
    let asked : Reach successor (create 0 0) (thread_at 5 0 0 0 (in_phase 5 written) waiting []) =
      next entered (caller _ refl refl) in
    let told : Reach successor (create 0 0) (thread_at 5 0 1 0 (in_phase 5 posted) waiting []) =
      next asked (caller _ refl refl) in
    let awake : Reach successor (create 0 0) (thread_at 5 0 0 0 (in_phase 5 posted) woken []) =
      next told (worker refl) in
    next awake (worker refl)

ended-Reach : Reach successor (create 0 0) ended
unfolding request serve_step wait_reply reply_with
ended-Reach =
    let wrote : Reach successor (create 0 0) (thread_at 5 6 0 0 (in_phase 5 posted) replying []) =
      next held-Reach (worker refl) in
    let replied : Reach successor (create 0 0) (thread_at 5 6 0 1 (in_phase 5 posted) waiting []) =
      next wrote (worker refl) in
    let waited : Reach successor (create 0 0) (thread_at 5 6 0 0 (in_phase 5 answered) waiting []) =
      next replied (caller _ refl refl) in
    let got : Reach successor (create 0 0) (thread_at 5 6 0 0 (in_phase 5 (leaving 6)) waiting []) =
      next waited (caller _ refl refl) in
    next got (caller _ refl refl)

replies_match_example : AllServed successor ended.returned
replies_match_example = replies_match successor 0 0 ended ended-Reach

call_ends_example :
    (steps_left held ≤ 9) × GoesOn successor (record { arg = 5; phase = posted }) held
call_ends_example =
    call_ends successor 0 0 held (record { arg = 5; phase = posted }) 6 held-Reach refl refl
      (λ e. ground (arith, e))

-- 0.9 s past a second, and 2.1 s to wait: the nanoseconds are 1000000000.
abbrev clock : Timespec
clock = record { tv_sec = 7; tv_nsec = 900000000 }

deadline-clock : deadline clock 2100 ≡ record { tv_sec = 9; tv_nsec = 1000000000 }
unfolding deadline libsimple.Semaphore.carry
deadline-clock = refl

deadline-nanoseconds_example :
    (nanoseconds (deadline clock 2100) ≡ nanoseconds clock + 2100 * 1000000)
    × ((deadline clock 2100).tv_nsec ≤ 1000000000)
    × (((deadline clock 2100).tv_nsec ≡ 1000000000)
        ↔ (clock.tv_nsec + 2100 % 1000 * 1000000 ≡ 1000000000))
deadline-nanoseconds_example = deadline-nanoseconds clock 2100 (omega arith)
