-- ===== src/ThreadPool/Inv.antt =====
-- The invariant of the thread pool of src/threadpool.c.
use libsimple.Base.{
  ℕ, zero, suc, ◌+◌, ◌≤◌, ◌<◌, ◌≡◌, refl, ap, sym, subst, ◌∙◌, Option, none, some, List, [], ◌∷◌,
  ◌++◌, append_assoc, length, length-append, if◌then◌else◌, arith,
}
use libsimple.Base.Int.{ℤ}
use libsimple.ThreadPool.{
  Phase, testing, waiting, woken, taking, running, stopped, Worker, Pool, thread_cnt, create, work,
  take_task, run_task, wait_sem, Step, add, post, set_quit, post_quit, worker, Reach, here, next,
}
use libsimple.ThreadPool.Count.{
  count, same, total, total-append, total-replicate, is_taking, is_woken, is_holding, taking_phase,
}

-- A worker that is about to take a task has one for itself in the queue, and so, until the pool is
-- told to quit, has each one that is woken, each unit of the semaphore and each post still to come.
-- Tasks leave the queue in the order in which they came, and each one taken has been run, or is
-- about to be by a worker that holds it.
pub record Inv (p : Pool) : Type 0 where
  pub tickets :
      total is_taking p.workers
        + (if p.quit then 0 else total is_woken p.workers + p.sem + p.pending)
      ≤ length p.tasks
  pub in_order : p.taken ++ p.tasks ≡ p.added
  pub runs : (a : ℕ) → count a p.ran + total (is_holding a) p.workers ≡ count a p.taken

abbrev AllSome : (Pool × Worker → Type 0) → Option (Pool × Worker) → Type 0
AllSome P none = Unit
AllSome P (some r) = P r

module _ (before after : List Worker) where
  abbrev at : Pool → Worker → Pool
  at p w = record p { workers = before ++ (w ∷ after) }

  abbrev totals : (Worker → ℕ) → Worker → ℕ
  totals f w = total f before + (f w + total f after)

  abbrev Tally : Pool → Worker → Type 0
  Tally p w =
      (totals is_taking w + (if p.quit then 0 else totals is_woken w + p.sem + p.pending)
        ≤ length p.tasks)
      × (p.taken ++ p.tasks ≡ p.added)
      × ((a : ℕ) → count a p.ran + totals (is_holding a) w ≡ count a p.taken)

  Tally-Inv : (p : Pool) (w : Worker) → Tally p w → Inv (at p w)
  Tally-Inv p w (t, o, r) = record {
    tickets = ground (
      arith,
      total-append is_taking before (w ∷ after),
      total-append is_woken before (w ∷ after),
    );
    in_order = o;
    runs = λ a. omega (arith, r a, total-append (is_holding a) before (w ∷ after));
  }

  Inv-Tally : (p : Pool) (w : Worker) → Inv (at p w) → Tally p w
  Inv-Tally p w v = (
    ground (
      arith,
      v.tickets,
      total-append is_taking before (w ∷ after),
      total-append is_woken before (w ∷ after),
    ),
    v.in_order,
    λ a. omega (arith, v.runs a, total-append (is_holding a) before (w ∷ after)),
  )

  -- The locked part: the queue is not empty, and the oldest task is taken.
  take_task-Tally :
      (ts : List ℕ) (task : Option ℕ) (p : Pool)
      → Tally (record p { tasks = ts }) (record { phase = taking; task = task })
      → let r = take_task ts p (record { phase = taking; task = task }) in Tally r.0 r.1
  unfolding take_task
  take_task-Tally [] task p (t, o, r) = absurd (ground arith)
  take_task-Tally (x ∷ ts) task p (t, o, r) = (
    ground arith,
    append_assoc p.taken (x ∷ []) ts ∙ o,
    λ a. ground (arith, r a, total-append (same a) p.taken (x ∷ [])),
  )

  run_task-Tally :
      (task : Option ℕ) (p : Pool)
      → Tally p (record { phase = running; task = task })
      → Tally (run_task task p) (record { phase = testing; task = task })
  unfolding run_task
  run_task-Tally none p (t, o, r) = (t, o, r)
  run_task-Tally (some x) p (t, o, r) =
      (t, o, λ a. ground (arith, r a, total-append (same a) p.ran (x ∷ [])))

  wait_sem-Tally :
      (n : ℕ) (task : Option ℕ) (p : Pool)
      → Tally (record p { sem = n }) (record { phase = waiting; task = task })
      → AllSome (λ r. Tally r.0 r.1) (wait_sem n p (record { phase = waiting; task = task }))
  unfolding wait_sem
  wait_sem-Tally zero task p t = tt
  wait_sem-Tally (suc n) task p (t, o, r) = (ground arith, o, r)

  -- Each phase of a worker keeps the tally.
  work-Tally :
      (ph : Phase) (task : Option ℕ) (p : Pool)
      → Tally p (record { phase = ph; task = task })
      → AllSome (λ r. Tally r.0 r.1) (work ph p (record { phase = ph; task = task }))
  unfolding work
  work-Tally testing task p (t, o, r) = (ground arith, o, λ a. ground (arith, r a))
  work-Tally waiting task p t = wait_sem-Tally p.sem task p t
  work-Tally woken task p (t, o, r) = (ground arith, o, λ a. ground (arith, r a))
  work-Tally taking task p t = take_task-Tally p.tasks task p t
  work-Tally running task p t = run_task-Tally task p t
  work-Tally stopped task p t = tt

-- Every step of the program keeps the invariant.
Step-Inv : {p q : Pool} → Step p q → Inv p → Inv q
Step-Inv {p} (add t e) v = rw e (record {
  tickets = ground (arith, v.tickets, length-append p.tasks (t ∷ []));
  in_order = sym (append_assoc p.taken p.tasks (t ∷ [])) ∙ ap (◌++ (t ∷ [])) v.in_order;
  runs = v.runs;
})
Step-Inv {p} (post n h e) v =
    rw e (record { tickets = ground (arith, v.tickets); in_order = v.in_order; runs = v.runs })
Step-Inv {p} (set_quit e) v =
    rw e (record { tickets = ground (arith, v.tickets); in_order = v.in_order; runs = v.runs })
Step-Inv {p} (post_quit h e) v =
    rw e (record { tickets = ground (arith, v.tickets); in_order = v.in_order; runs = v.runs })
Step-Inv {p} (worker before after w w' p' split step e) v =
    let t : Tally before after p w =
      Inv-Tally before after p w (subst (λ ws. Inv (record p { workers = ws })) split v) in
    let t' : Tally before after p' w' =
      subst (AllSome (λ r. Tally before after r.0 r.1)) step
        (work-Tally before after w.phase w.task p t) in
    rw e (Tally-Inv before after p' w' t')

create-Inv : (cnt : ℤ) → Inv (create cnt)
unfolding create
create-Inv cnt =
    let idle : Worker = record { phase = testing; task = none } in
    record {
      tickets = omega (
        arith,
        total-replicate is_taking (thread_cnt cnt) idle refl,
        total-replicate is_woken (thread_cnt cnt) idle refl,
      );
      in_order = refl;
      runs = λ a. omega (arith, total-replicate (is_holding a) (thread_cnt cnt) idle refl);
    }

-- The invariant holds in every state that a new pool can reach, however its steps interleave.
pub Reach-Inv : (cnt : ℤ) {p : Pool} → Reach (create cnt) p → Inv p
Reach-Inv cnt here = create-Inv cnt
Reach-Inv cnt (next r st) = Step-Inv st (Reach-Inv cnt r)

-- However the threads interleave, a worker that comes to the locked part of its loop, past the wait
-- and the test of `quit`, finds a task in the queue.
pub taking-finds_task :
    (cnt : ℤ) (p : Pool) (before after : List Worker) (w : Worker)
    → Reach (create cnt) p
    → p.workers ≡ before ++ (w ∷ after)
    → w.phase ≡ taking
    → (t : ℕ) × (ts : List ℕ) × (p.tasks ≡ t ∷ ts)
taking-finds_task cnt p before after w reach split ph = nonempty p.tasks refl
  where
    v : Inv p
    v = Reach-Inv cnt reach

    here_taking : 0 < total is_taking p.workers
    here_taking =
        rw split (ground (arith, total-append is_taking before (w ∷ after), ap taking_phase ph))

    nonempty : (l : List ℕ) → p.tasks ≡ l → (t : ℕ) × (ts : List ℕ) × (p.tasks ≡ t ∷ ts)
    nonempty [] e = absurd (ground (arith, v.tickets, here_taking, ap length e))
    nonempty (t ∷ ts) e = (t, ts, e)

-- In every reachable state the tasks taken from the queue, followed by those still in it, are the
-- tasks added, in the order in which they were added; and no task has been run more often than it
-- was added.
pub tasks_in_order :
    (cnt : ℤ) (p : Pool)
    → Reach (create cnt) p
    → (p.taken ++ p.tasks ≡ p.added) × ((a : ℕ) → count a p.ran ≤ count a p.added)
tasks_in_order cnt p reach =
    let v : Inv p = Reach-Inv cnt reach in
    (
      v.in_order,
      λ a. omega (arith, v.runs a, total-append (same a) p.taken p.tasks, ap (count a) v.in_order),
    )
