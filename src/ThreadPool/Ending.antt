-- ===== src/ThreadPool/Ending.antt =====
-- _thread_proc of src/threadpool.c once `quit` is set: how far a worker is from its end.
use libsimple.Base.{
  ℕ, zero, suc, ◌+◌, ◌*◌, ◌≤◌, ◌<◌, ◌≡◌, refl, ◌∙◌, true, Option, none, some, List, [], ◌∷◌, length,
  arith,
}
use libsimple.ThreadPool.{
  Phase, testing, waiting, woken, taking, running, stopped, Worker, Pool, work, take_task, run_task,
  wait_sem,
}
use libsimple.ThreadPool.Count.{total}

-- How many steps a worker still takes once `quit` is set, and whether it needs a post for that.
abbrev pub phase_rank : Phase → ℕ
phase_rank taking = 4
phase_rank running = 3
phase_rank testing = 2
phase_rank waiting = 2
phase_rank woken = 1
phase_rank stopped = 0

abbrev pub rank : Worker → ℕ
rank w = phase_rank w.phase

abbrev pub phase_waits : Phase → ℕ
phase_waits waiting = 1
phase_waits _ = 0

abbrev pub waits : Worker → ℕ
waits w = phase_waits w.phase

abbrev pub AllSome : (Pool × Worker → Type 0) → Option (Pool × Worker) → Type 0
AllSome P none = Unit
AllSome P (some r) = P r

-- Each step brings a worker nearer to its end, and takes a post only if it was waiting for one.
pub record Nearer (ph : Phase) (sem : ℕ) (r : Pool × Worker) : Type 0 where
  pub still : r.0.quit ≡ true
  pub fewer : rank r.1 < phase_rank ph
  pub paid : waits r.1 + sem ≤ phase_waits ph + r.0.sem

wait_sem-Nearer :
    (n : ℕ) (p : Pool) (w : Worker) → p.quit ≡ true → AllSome (Nearer waiting n) (wait_sem n p w)
unfolding wait_sem
wait_sem-Nearer zero p w e = tt
wait_sem-Nearer (suc n) p w e = record { still = e; fewer = omega arith; paid = omega arith }

take_task-Nearer :
    (ts : List ℕ) (p : Pool) (w : Worker) → p.quit ≡ true → Nearer taking p.sem (take_task ts p w)
unfolding take_task
take_task-Nearer [] p w e = record { still = e; fewer = omega arith; paid = omega arith }
take_task-Nearer (t ∷ ts) p w e = record { still = e; fewer = omega arith; paid = omega arith }

run_task-keeps :
    (o : Option ℕ) (p : Pool) → ((run_task o p).quit ≡ p.quit) × ((run_task o p).sem ≡ p.sem)
unfolding run_task
run_task-keeps none p = (refl, refl)
run_task-keeps (some t) p = (refl, refl)

pub work-Nearer :
    (ph : Phase) (p : Pool) (w : Worker) → p.quit ≡ true → AllSome (Nearer ph p.sem) (work ph p w)
unfolding work
work-Nearer testing p w e = record {
  still = e;
  fewer = ground (arith, e);
  paid = ground (arith, e);
}
work-Nearer waiting p w e = wait_sem-Nearer p.sem p w e
work-Nearer woken p w e = record { still = e; fewer = ground (arith, e); paid = ground (arith, e) }
work-Nearer taking p w e = take_task-Nearer p.tasks p w e
work-Nearer running p w e =
    let (q, s) = run_task-keeps w.task p in
    record { still = q ∙ e; fewer = omega arith; paid = omega (arith, s) }
work-Nearer stopped p w e = tt

phase_bounds : (ph : Phase) → (phase_rank ph ≤ 4) × (phase_waits ph ≤ 1)
phase_bounds testing = omega arith
phase_bounds waiting = omega arith
phase_bounds woken = omega arith
phase_bounds taking = omega arith
phase_bounds running = omega arith
phase_bounds stopped = omega arith

pub total_bounds :
    (ws : List Worker) → (total rank ws ≤ 4 * length ws) × (total waits ws ≤ length ws)
total_bounds [] = omega arith
total_bounds (w ∷ ws) = omega (arith, total_bounds ws, phase_bounds w.phase)
