-- ===== src/ThreadPool.antt =====
-- src/threadpool.c: the task queue, the semaphore and the worker threads. A worker's code is a step
-- function from one point where other threads may come between to the next; the semaphore and the
-- lock are the platform's (src/semaphore.c), with the behaviour that POSIX gives them: a wait ends
-- only when the count is positive and takes one from it, and what is done under the lock is one step.
pub mod Count
pub mod Inv
pub mod Ending
pub mod Quit
use libsimple.Base.{
  ℕ, zero, suc, ◌+◌, ◌-◌, ◌≡◌, Bool, true, false, Option, none, some, List, [], ◌∷◌, ◌++◌,
  if◌then◌else◌, ltb, replicate,
}
use libsimple.Base.Int.{ℤ, pos, negsuc}

-- Where a worker stands in _thread_proc: before `while (!tp->quit)`, in `simple_sem_wait`, before
-- `if (tp->quit)`, before the locked part, before `if (task)`, behind the loop.
pub data Phase : Type 0 where
  testing waiting woken taking running stopped : Phase

-- A worker and its local variable `task`, which keeps its value from one round to the next.
pub record Worker : Type 0 where
  pub phase : Phase
  pub task : Option ℕ

-- struct thread_pool_t; tasks are numbers. `pending` counts the calls of add_task that have unlocked
-- and not yet posted. The last three fields are the history: the tasks added, taken from the queue,
-- and handed to their handlers, oldest first.
pub record Pool : Type 0 where
  pub tasks : List ℕ
  pub sem : ℕ
  pub quit : Bool
  pub pending : ℕ
  pub workers : List Worker
  pub added : List ℕ
  pub taken : List ℕ
  pub ran : List ℕ

-- _thread_cnt
unfoldable pub thread_cnt : ℤ → ℕ
thread_cnt (negsuc n) = 4
thread_cnt (pos zero) = 4
thread_cnt (pos (suc n)) = suc n

-- simple_thread_pool_create
unfoldable pub create : ℤ → Pool
create cnt = record {
  tasks = [];
  sem = 0;
  quit = false;
  pending = 0;
  workers = replicate (thread_cnt cnt) (record { phase = testing; task = none });
  added = [];
  taken = [];
  ran = [];
}

-- the locked part: the oldest task, if there is one, goes to `task`
unfoldable pub take_task : List ℕ → Pool → Worker → Pool × Worker
take_task [] p w = (p, record w { phase = running })
take_task (t ∷ ts) p w = (
  record p { tasks = ts; taken = p.taken ++ (t ∷ []) },
  record w { phase = running; task = some t },
)

-- `if (task) task->handle(…)`
unfoldable pub run_task : Option ℕ → Pool → Pool
run_task none p = p
run_task (some t) p = record p { ran = p.ran ++ (t ∷ []) }

unfoldable pub wait_sem : ℕ → Pool → Worker → Option (Pool × Worker)
wait_sem zero p w = none
wait_sem (suc n) p w = some (record p { sem = n }, record w { phase = woken })

-- _thread_proc, from one phase to the next; `none` is a worker that waits or has ended.
unfoldable pub work : Phase → Pool → Worker → Option (Pool × Worker)
unfolding take_task run_task wait_sem
work testing p w = some (p, record w { phase = if p.quit then stopped else waiting })
work waiting p w = wait_sem p.sem p w
work woken p w = some (p, record w { phase = if p.quit then stopped else taking })
work taking p w = some (take_task p.tasks p w)
work running p w = some (run_task w.task p, record w { phase = testing })
work stopped p w = none

-- One step of the program: a worker, or another thread in simple_thread_pool_add_task or in
-- simple_thread_pool_destroy.
pub data Step (p q : Pool) : Type 0 where
  -- `list_add_tail` under the lock
  add :
      (t : ℕ)
      → q ≡ record p {
        tasks = p.tasks ++ (t ∷ []);
        added = p.added ++ (t ∷ []);
        pending = p.pending + 1;
      }
      → Step p q
  -- `simple_sem_post` in add_task
  post : (n : ℕ) → p.pending ≡ suc n → q ≡ record p { sem = p.sem + 1; pending = n } → Step p q
  -- `p->quit = 1`
  set_quit : q ≡ record p { quit = true } → Step p q
  -- `simple_sem_post` in destroy
  post_quit : p.quit ≡ true → q ≡ record p { sem = p.sem + 1 } → Step p q
  worker :
      (before after : List Worker) (w w' : Worker) (p' : Pool)
      → p.workers ≡ before ++ (w ∷ after)
      → work w.phase p w ≡ some (p', w')
      → q ≡ record p' { workers = before ++ (w' ∷ after) }
      → Step p q

pub data Reach (p : Pool) : Pool → Type 0 where
  here : Reach p p
  next : {q r : Pool} → Reach p q → Step q r → Reach p r
