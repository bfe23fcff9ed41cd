-- ===== src/Thread/Rendezvous.antt =====
-- simple_thread_req of src/thread.c, from the request to its reply.
use libsimple.Base.{
  ℕ, zero, suc, ◌+◌, ◌<◌, ◌≤◌, ◌≡◌, ◌⊎◌, inl, inr, refl, ap, ◌∙◌, ◌≢◌, sym, subst, Option, none,
  some, arith,
}
use libsimple.Thread.{
  CallPhase, locked, written, posted, answered, leaving, WorkPhase, waiting, woken, replying,
  left_loop, holding, Call, Thread, create, request, serve_step, Reach, wait_reply, wait_request,
  reply_with, in_phase,
}
use libsimple.Thread.Inv.{AllServed, Fits, FitsCall, Inv, Reach-Inv}

-- However many threads call `simple_thread_req`, and however they and the worker interleave, whichever
-- requests it replies to and whenever it leaves its loop, every call that has returned got the
-- worker's reply to its own request.
pub replies_match :
    (serve : ℕ → Option ℕ) (req rpl : ℕ) (t : Thread)
    → Reach serve (create req rpl) t
    → AllServed serve t.returned
replies_match serve req rpl t reach =
    let v : Inv serve t = Reach-Inv serve req rpl reach in v.served

-- How many steps of its caller and of the worker a call still takes.
abbrev call_rank : CallPhase → WorkPhase → ℕ → ℕ
call_rank locked w sem_rpl = 9
call_rank written w sem_rpl = 8
call_rank posted waiting zero = 7
call_rank posted waiting (suc n) = 3
call_rank posted woken sem_rpl = 6
call_rank posted (holding r) sem_rpl = 5
call_rank posted replying sem_rpl = 4
call_rank posted left_loop sem_rpl = 0
call_rank answered w sem_rpl = 2
call_rank (leaving rpl) w sem_rpl = 1

abbrev call_left : Option Call → WorkPhase → ℕ → ℕ
call_left none w sem_rpl = 0
call_left (some c) w sem_rpl = call_rank c.phase w sem_rpl

abbrev pub steps_left : Thread → ℕ
steps_left t = call_left t.call t.worker t.sem_rpl

posted_rank : (n : ℕ) → call_rank posted waiting n ≤ 7
posted_rank zero = omega arith
posted_rank (suc n) = omega arith

replied_rank : (n : ℕ) → 0 < n → call_rank posted waiting n ≡ 3
replied_rank zero h = absurd (omega arith)
replied_rank (suc n) h = refl

rank_small : (phase : CallPhase) (w : WorkPhase) (n : ℕ) → call_rank phase w n ≤ 9
rank_small locked w n = omega arith
rank_small written w n = omega arith
rank_small posted waiting n = omega (arith, posted_rank n)
rank_small posted woken n = omega arith
rank_small posted (holding r) n = omega arith
rank_small posted replying n = omega arith
rank_small posted left_loop n = omega arith
rank_small answered w n = omega arith
rank_small (leaving rpl) w n = omega arith

-- A step of the caller or of the worker that brings the call nearer to its end.
abbrev pub GoesOn : (ℕ → Option ℕ) → Call → Thread → Type 0
GoesOn serve c t =
    (u : Thread) × ((request c.phase c.arg t ≡ some u) ⊎ (serve_step serve t.worker t ≡ some u))
    × (steps_left u < steps_left t)

module _ (serve : ℕ → Option ℕ) where
  posted_waiting :
      (sem_req sem_rpl arg : ℕ) (t : Thread)
      → ((sem_req ≡ 1) × (sem_rpl ≡ 0)) ⊎ ((sem_req ≡ 0) × (sem_rpl ≡ 1))
      → GoesOn serve
          (record { arg = arg; phase = posted })
          (record t {
            sem_req = sem_req;
            sem_rpl = sem_rpl;
            call = in_phase arg posted;
            worker = waiting;
          })
  unfolding request serve_step wait_reply wait_request
  posted_waiting sem_req (suc n) arg t h = (_, inl refl, omega arith)
  posted_waiting (suc n) zero arg t h = (_, inr refl, omega arith)
  posted_waiting zero zero arg t h = absurd (omega arith)

  pair_of :
      (arg y : ℕ) (t : Thread)
      → serve arg ≡ some y
      → Fits serve posted arg waiting t
      → ((t.sem_req ≡ 1) × (t.sem_rpl ≡ 0)) ⊎ ((t.sem_req ≡ 0) × (t.sem_rpl ≡ 1))
  pair_of arg y t replies (inl f) = inl (f.0, f.1)
  pair_of arg y t replies (inr (inl f)) = inr (f.0, f.1)
  pair_of arg y t replies (inr (inr f)) = absurd (cc (replies, f.2))

  Fits-GoesOn :
      (phase : CallPhase) (arg : ℕ) (w : WorkPhase) (t : Thread) (y : ℕ)
      → serve arg ≡ some y
      → w ≢ left_loop
      → Fits serve phase arg w t
      → GoesOn serve
          (record { arg = arg; phase = phase })
          (record t { call = in_phase arg phase; worker = w })
  unfolding request serve_step reply_with
  Fits-GoesOn locked arg waiting t y e stays f = (_, inl refl, omega arith)
  Fits-GoesOn locked arg left_loop t y e stays f = absurd (stays refl)
  Fits-GoesOn locked arg woken t y e stays f = absurd f
  Fits-GoesOn locked arg (holding r) t y e stays f = absurd f
  Fits-GoesOn locked arg replying t y e stays f = absurd f
  Fits-GoesOn written arg waiting t y e stays f =
      (_, inl refl, omega (arith, posted_rank t.sem_rpl))
  Fits-GoesOn written arg left_loop t y e stays f = absurd (stays refl)
  Fits-GoesOn written arg woken t y e stays f = absurd f
  Fits-GoesOn written arg (holding r) t y e stays f = absurd f
  Fits-GoesOn written arg replying t y e stays f = absurd f
  Fits-GoesOn answered arg waiting t y e stays f = (_, inl refl, omega arith)
  Fits-GoesOn answered arg left_loop t y e stays f = absurd (stays refl)
  Fits-GoesOn answered arg woken t y e stays f = absurd f
  Fits-GoesOn answered arg (holding r) t y e stays f = absurd f
  Fits-GoesOn answered arg replying t y e stays f = absurd f
  Fits-GoesOn (leaving rpl) arg waiting t y e stays f = (_, inl refl, omega arith)
  Fits-GoesOn (leaving rpl) arg left_loop t y e stays f = absurd (stays refl)
  Fits-GoesOn (leaving rpl) arg woken t y e stays f = absurd f
  Fits-GoesOn (leaving rpl) arg (holding r) t y e stays f = absurd f
  Fits-GoesOn (leaving rpl) arg replying t y e stays f = absurd f
  Fits-GoesOn posted arg waiting t y e stays f =
      posted_waiting t.sem_req t.sem_rpl arg t (pair_of arg y t e f)
  Fits-GoesOn posted arg left_loop t y e stays f = absurd (stays refl)
  Fits-GoesOn posted arg woken t y e stays f = (_, inr refl, omega arith)
  Fits-GoesOn posted arg (holding r) t y e stays f =
      let replies : serve r ≡ some y = ap serve f.2 ∙ e in
      (
        record t { rpl = y; call = in_phase arg posted; worker = replying },
        inr (rw replies refl),
        omega arith,
      )
  Fits-GoesOn posted arg replying t y e stays f =
      (_, inr refl, omega (arith, replied_rank (t.sem_rpl + 1) (omega arith)))

-- No call of simple_thread_req is stuck while the worker replies to its request and does not leave its
-- loop: as long as the caller holds the mutex, it or the worker can make a step, and one after which
-- the call takes fewer steps than before, of which it takes at most nine.
pub call_ends :
    (serve : ℕ → Option ℕ) (req rpl : ℕ) (t : Thread) (c : Call) (y : ℕ)
    → Reach serve (create req rpl) t
    → t.call ≡ some c
    → serve c.arg ≡ some y
    → t.worker ≢ left_loop
    → (steps_left t ≤ 9) × GoesOn serve c t
call_ends serve req rpl t c y reach inside replies stays =
    let v : Inv serve t = Reach-Inv serve req rpl reach in
    (
      subst (λ o. call_left o t.worker t.sem_rpl ≤ 9) (sym inside)
          (rank_small c.phase t.worker t.sem_rpl),
      subst (λ o. GoesOn serve c (record t { call = o })) (sym inside)
          (Fits-GoesOn serve c.phase c.arg t.worker t y replies stays
            (subst (λ o. FitsCall serve o t.worker t) inside v.fits)),
    )
