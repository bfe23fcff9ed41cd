-- ===== src/Tests/ThreadPool.antt =====
-- The theorems on src/threadpool.c at a pool with one worker and one task.
use libsimple.Base.{◌≡◌, ◌*◌, ◌⊎◌, refl, ℕ, ◌≤◌, none, List, [], ◌∷◌, ◌++◌, true, false}
use libsimple.Base.Int.{pos}
use libsimple.ThreadPool.{
  Pool, Phase, testing, waiting, woken, taking, thread_cnt, create, work, take_task, run_task,
  wait_sem, Reach, here, next, add, post, worker,
}
use libsimple.ThreadPool.Count.{count}
use libsimple.ThreadPool.Quit.{Closing, CloseStep, start, AllStopped, destroy_joins}
use libsimple.ThreadPool.Inv.{taking-finds_task, tasks_in_order}

-- The pool with one worker in some phase, after a task 7.
abbrev pool_at : Phase → ℕ → ℕ → Pool
pool_at ph sem pending = record {
  tasks = 7 ∷ [];
  sem = sem;
  quit = false;
  pending = pending;
  workers = record { phase = ph; task = none } ∷ [];
  added = 7 ∷ [];
  taken = [];
  ran = [];
}

taking-Reach : Reach (create (pos 1)) (pool_at taking 0 0)
unfolding create thread_cnt work take_task run_task wait_sem
taking-Reach =
    let added : Reach (create (pos 1)) (pool_at testing 0 1) = next here (add 7 refl) in
    let posted : Reach (create (pos 1)) (pool_at testing 1 0) = next added (post 0 refl refl) in
    let waits : Reach (create (pos 1)) (pool_at waiting 1 0) =
      next posted (worker [] [] _ _ _ refl refl refl) in
    let wakes : Reach (create (pos 1)) (pool_at woken 0 0) =
      next waits (worker [] [] _ _ _ refl refl refl) in
    next wakes (worker [] [] _ _ _ refl refl refl)

taking-finds_task_example : (t : ℕ) × (ts : List ℕ) × ((pool_at taking 0 0).tasks ≡ t ∷ ts)
taking-finds_task_example =
    taking-finds_task (pos 1) (pool_at taking 0 0) [] [] (record { phase = taking; task = none })
      taking-Reach refl refl

tasks_in_order_example :
    ((pool_at taking 0 0).taken ++ (pool_at taking 0 0).tasks ≡ (pool_at taking 0 0).added)
    × ((a : ℕ) → count a [] ≤ count a (7 ∷ []))
tasks_in_order_example = tasks_in_order (pos 1) (pool_at taking 0 0) taking-Reach

-- The worker has gone on to its task before the one post is made.
abbrev closing_at : Phase → ℕ → Closing
closing_at ph left = record { pool = record (pool_at ph 0 0) { quit = true }; left = left }

destroy_joins_example :
    (0 ≤ 5 * thread_cnt (pos 1))
    × ((((closing_at taking 1).left ≡ 0) × AllStopped (pool_at taking 0 0).workers)
        ⊎ ((s : Closing) × CloseStep (closing_at taking 1) s))
unfolding thread_cnt
destroy_joins_example =
    destroy_joins (pos 1) (pool_at taking 0 0) (closing_at taking 1) 0 taking-Reach start
