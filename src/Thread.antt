-- ===== src/Thread.antt =====
-- src/thread.c: how other threads hand requests to a worker thread and wait for its replies. The
-- worker's loop is not part of src/thread.c but handed to it: it is taken to be one as in
-- include/simple/thread.h, which gets a request, replies to it or not, and may end between two
-- requests. What it replies is a function `serve`, where `none` is no reply. Between two steps of one
-- thread any others may come; the mutex is held by at most one caller, and a wait ends only when the
-- count is positive.
pub mod Inv
pub mod Rendezvous
use libsimple.Base.{ℕ, zero, suc, ◌+◌, Option, none, some, List, [], ◌∷◌, ◌++◌, ◌≡◌}

-- Where a caller of simple_thread_req stands once it has the mutex: before `th->req = req`, before
-- the post, before the wait, before `rpl = th->rpl`, before the unlock with its `rpl`.
pub data CallPhase : Type 0 where
  locked written posted answered : CallPhase
  leaving : ℕ → CallPhase

-- Where the worker stands: before or in the wait for `sem_req`, before `return th->req`, with a
-- request, in simple_thread_reply between its two statements, and behind its loop.
pub data WorkPhase : Type 0 where
  waiting woken replying left_loop : WorkPhase
  holding : ℕ → WorkPhase

pub record Call : Type 0 where
  pub arg : ℕ
  pub phase : CallPhase

-- struct thread_t: the two counts of its semaphores, its two pointers, the caller that holds its
-- mutex, the worker, and the history of the calls that have returned, with their replies.
pub record Thread : Type 0 where
  pub req : ℕ
  pub rpl : ℕ
  pub sem_req : ℕ
  pub sem_rpl : ℕ
  pub call : Option Call
  pub worker : WorkPhase
  pub returned : List (ℕ × ℕ)

-- simple_thread_create; `malloc` leaves the two pointers as they are.
unfoldable pub create : ℕ → ℕ → Thread
create req rpl = record {
  req = req;
  rpl = rpl;
  sem_req = 0;
  sem_rpl = 0;
  call = none;
  worker = waiting;
  returned = [];
}

abbrev pub in_phase : ℕ → CallPhase → Option Call
in_phase arg phase = some (record { arg = arg; phase = phase })

unfoldable pub wait_reply : ℕ → ℕ → Thread → Option Thread
wait_reply zero arg t = none
wait_reply (suc n) arg t = some (record t { sem_rpl = n; call = in_phase arg answered })

-- simple_thread_req from one phase to the next; `none` is a caller that waits.
unfoldable pub request : CallPhase → ℕ → Thread → Option Thread
unfolding wait_reply
request locked arg t = some (record t { req = arg; call = in_phase arg written })
request written arg t = some (record t { sem_req = t.sem_req + 1; call = in_phase arg posted })
request posted arg t = wait_reply t.sem_rpl arg t
request answered arg t = some (record t { call = in_phase arg (leaving t.rpl) })
request (leaving rpl) arg t =
    some (record t { call = none; returned = t.returned ++ ((arg, rpl) ∷ []) })

unfoldable pub wait_request : ℕ → Thread → Option Thread
wait_request zero t = none
wait_request (suc n) t = some (record t { sem_req = n; worker = woken })

-- `simple_thread_reply`, if the worker calls it
unfoldable pub reply_with : Option ℕ → Thread → Option Thread
reply_with none t = some (record t { worker = waiting })
reply_with (some rpl) t = some (record t { rpl = rpl; worker = replying })

-- simple_thread_getreq, or simple_thread_chkreq that returns 1, and simple_thread_reply, called by the
-- worker's loop.
unfoldable pub serve_step : (ℕ → Option ℕ) → WorkPhase → Thread → Option Thread
unfolding wait_request reply_with
serve_step serve waiting t = wait_request t.sem_req t
serve_step serve woken t = some (record t { worker = holding t.req })
serve_step serve (holding req) t = reply_with (serve req) t
serve_step serve replying t = some (record t { sem_rpl = t.sem_rpl + 1; worker = waiting })
serve_step serve left_loop t = none

pub data Step (serve : ℕ → Option ℕ) (t u : Thread) : Type 0 where
  -- a caller gets the mutex
  enter : (arg : ℕ) → t.call ≡ none → u ≡ record t { call = in_phase arg locked } → Step serve t u
  caller : (c : Call) → t.call ≡ some c → request c.phase c.arg t ≡ some u → Step serve t u
  worker : serve_step serve t.worker t ≡ some u → Step serve t u
  -- simple_thread_chkreq that returns 0
  timed_out : t.worker ≡ waiting → u ≡ t → Step serve t u
  -- the worker leaves its loop
  quits : t.worker ≡ waiting → u ≡ record t { worker = left_loop } → Step serve t u

pub data Reach (serve : ℕ → Option ℕ) (t : Thread) : Thread → Type 0 where
  here : Reach serve t t
  next : {u v : Thread} → Reach serve t u → Step serve u v → Reach serve t v
