-- ===== src/ThreadPool/Quit.antt =====
-- simple_thread_pool_destroy of src/threadpool.c from where the flag is set up to the joins: the posts
-- are made one by one, while the workers run.
use libsimple.Base.{
  ℕ, zero, suc, ◌+◌, ◌*◌, ◌≤◌, ◌<◌, ◌≡◌, ◌⊎◌, inl, inr, refl, ap, sym, subst, ◌∙◌, true, none, some,
  List, [], ◌∷◌, ◌++◌, append_assoc, length, length-append, length-replicate, arith,
}
use libsimple.Base.Int.{ℤ}
use libsimple.ThreadPool.{
  Phase, testing, waiting, woken, taking, running, stopped, Worker, Pool, thread_cnt, create, work,
  wait_sem, Step, add, post, set_quit, post_quit, worker, Reach, here, next,
}
use libsimple.ThreadPool.Count.{total, total-append}
use libsimple.ThreadPool.Ending.{
  rank, phase_waits, waits, AllSome, Nearer, work-Nearer, total_bounds,
}

-- One step of a worker.
pub record WorkStep (p q : Pool) : Type 0 where
  pub before : List Worker
  pub after : List Worker
  pub w : Worker
  pub w' : Worker
  pub p' : Pool
  pub split : p.workers ≡ before ++ (w ∷ after)
  pub step : work w.phase p w ≡ some (p', w')
  pub result : q ≡ record p' { workers = before ++ (w' ∷ after) }

-- simple_thread_pool_destroy behind `p->quit = 1`, with the posts that its loop has still to make.
pub record Closing : Type 0 where
  pub pool : Pool
  pub left : ℕ

abbrev pub signalled : ℤ → Pool → Closing
signalled cnt p = record { pool = record p { quit = true }; left = thread_cnt cnt }

-- One turn of its loop, or one step of a worker.
pub data CloseStep (s s' : Closing) : Type 0 where
  post_one :
      (n : ℕ)
      → s.left ≡ suc n
      → s' ≡ record { pool = record s.pool { sem = s.pool.sem + 1 }; left = n }
      → CloseStep s s'
  works : (q : Pool) → WorkStep s.pool q → s' ≡ record { pool = q; left = s.left } → CloseStep s s'

pub data Runs (s : Closing) : ℕ → Closing → Type 0 where
  start : Runs s 0 s
  one_more : {k : ℕ} {s' s'' : Closing} → Runs s k s' → CloseStep s' s'' → Runs s (suc k) s''

abbrev pub AllStopped : List Worker → Type 0
AllStopped [] = Unit
AllStopped (w ∷ ws) = (w.phase ≡ stopped) × AllStopped ws

-- After the flag is set: whoever waits has a post, or will have one.
record Quitting (left : ℕ) (p : Pool) : Type 0 where
  quits : p.quit ≡ true
  posts : total waits p.workers ≤ p.sem + left

WorkStep-Quitting :
    (left : ℕ) (p q : Pool)
    → WorkStep p q
    → Quitting left p
    → Quitting left q × (total rank q.workers < total rank p.workers)
WorkStep-Quitting left p q s v =
    let n : Nearer s.w.phase p.sem (s.p', s.w') =
      subst (AllSome (Nearer s.w.phase p.sem)) s.step (work-Nearer s.w.phase p s.w v.quits) in
    let posts : total waits (s.before ++ (s.w ∷ s.after)) ≤ p.sem + left =
      subst (λ ws. total waits ws ≤ p.sem + left) s.split v.posts in
    let changed : Pool = record s.p' { workers = s.before ++ (s.w' ∷ s.after) } in
    let after : Quitting left changed × (total rank changed.workers < total rank p.workers) = (
      record {
        quits = n.still;
        posts = omega (
          arith,
          posts,
          n.paid,
          total-append waits s.before (s.w ∷ s.after),
          total-append waits s.before (s.w' ∷ s.after),
        );
      },
      omega (
        arith,
        n.fewer,
        ap (total rank) s.split,
        total-append rank s.before (s.w ∷ s.after),
        total-append rank s.before (s.w' ∷ s.after),
      ),
    ) in
    subst (λ r. Quitting left r × (total rank r.workers < total rank p.workers)) (sym s.result)
      after

-- How many steps there are still to come, at most.
abbrev to_come : Closing → ℕ
to_come s = total rank s.pool.workers + s.left

CloseStep-Quitting :
    (s s' : Closing)
    → CloseStep s s'
    → Quitting s.left s.pool
    → Quitting s'.left s'.pool × (to_come s' < to_come s)
CloseStep-Quitting s s' (post_one n e r) v =
    let posted : Closing = record { pool = record s.pool { sem = s.pool.sem + 1 }; left = n } in
    let after : Quitting n posted.pool × (to_come posted < to_come s) =
      (record { quits = v.quits; posts = omega (arith, v.posts, e) }, omega (arith, e)) in
    subst (λ c. Quitting c.left c.pool × (to_come c < to_come s)) (sym r) after
CloseStep-Quitting s s' (works q step r) v =
    let (v', less) = WorkStep-Quitting s.left s.pool q step v in
    let worked : Closing = record { pool = q; left = s.left } in
    let after : Quitting s.left q × (to_come worked < to_come s) = (v', omega (arith, less)) in
    subst (λ c. Quitting c.left c.pool × (to_come c < to_come s)) (sym r) after

Runs-Quitting :
    (s : Closing) {k : ℕ} {r : Closing}
    → Runs s k r
    → Quitting s.left s.pool
    → Quitting r.left r.pool × (k + to_come r ≤ to_come s)
Runs-Quitting s start v = (v, omega arith)
Runs-Quitting s (one_more {k} {s'} {s''} run step) v =
    let (v', less) = Runs-Quitting s run v in
    let (v'', less') = CloseStep-Quitting s' s'' step v' in (v'', omega (arith, less, less'))

-- A worker that has not stopped can make a step, unless it waits and there is no post.
has_step :
    (ph : Phase) (p : Pool) (w : Worker)
    → (ph ≡ stopped) ⊎ ((phase_waits ph ≤ p.sem) → (r : Pool × Worker) × (work ph p w ≡ some r))
unfolding work
has_step testing p w = inr (λ h. (_, refl))
has_step waiting p w = inr (λ h. takes p.sem h)
  where
    takes : (n : ℕ) → (1 ≤ n) → (r : Pool × Worker) × (wait_sem n p w ≡ some r)
    takes zero h = absurd (omega arith)
    takes (suc n) h = unfold wait_sem in (_, refl)
has_step woken p w = inr (λ h. (_, refl))
has_step taking p w = inr (λ h. (_, refl))
has_step running p w = inr (λ h. (_, refl))
has_step stopped p w = inl refl

stopped_or_steps :
    (p : Pool) (before ws : List Worker)
    → Quitting 0 p
    → p.workers ≡ before ++ ws
    → AllStopped ws ⊎ ((q : Pool) × WorkStep p q)
stopped_or_steps p before [] v e = inl tt
stopped_or_steps p before (w ∷ ws) v e = elim (has_step w.phase p w) [
  | inr step ↦
      let posts : total waits (before ++ (w ∷ ws)) ≤ p.sem + 0 =
        subst (λ l. total waits l ≤ p.sem + 0) e v.posts in
      let (r, is) = step (omega (arith, posts, total-append waits before (w ∷ ws))) in
      inr (
        record r.0 { workers = before ++ (r.1 ∷ ws) },
        record {
          before = before;
          after = ws;
          w = w;
          w' = r.1;
          p' = r.0;
          split = e;
          step = is;
          result = refl;
        },
      )
  | inl over ↦
      elim (stopped_or_steps p (before ++ (w ∷ [])) ws v
        (e ∙ sym (append_assoc before (w ∷ []) ws))) [
          | inl rest ↦ inl (over, rest)
          | inr more ↦ inr more
        ]
]

-- No worker is ever added or lost.
run_length :
    (ws : List Worker) (before after : List Worker) (w w' : Worker)
    → ws ≡ before ++ (w ∷ after)
    → length (before ++ (w' ∷ after)) ≡ length ws
run_length ws before after w w' e =
    omega (arith, ap length e, length-append before (w ∷ after), length-append before (w' ∷ after))

Step-length : {p q : Pool} → Step p q → length q.workers ≡ length p.workers
Step-length {p} (add t e) = ap (λ (r : Pool). length r.workers) e
Step-length {p} (post n h e) = ap (λ (r : Pool). length r.workers) e
Step-length {p} (set_quit e) = ap (λ (r : Pool). length r.workers) e
Step-length {p} (post_quit h e) = ap (λ (r : Pool). length r.workers) e
Step-length {p} (worker before after w w' p' split step e) =
    ap (λ (r : Pool). length r.workers) e ∙ run_length p.workers before after w w' split

Reach-length : (cnt : ℤ) {p : Pool} → Reach (create cnt) p → length p.workers ≡ thread_cnt cnt
unfolding create
Reach-length cnt here = length-replicate (thread_cnt cnt) (record { phase = testing; task = none })
Reach-length cnt (next r s) = Step-length s ∙ Reach-length cnt r

ends_or_steps :
    (left : ℕ) (p : Pool)
    → Quitting left p
    → ((left ≡ 0) × AllStopped p.workers)
      ⊎ ((s : Closing) × CloseStep (record { pool = p; left = left }) s)
ends_or_steps zero p v = elim (stopped_or_steps p [] p.workers v refl) [
  | inl over ↦ inl (refl, over)
  | inr (q, step) ↦ inr (_, works q step refl)
]
ends_or_steps (suc n) p v = inr (_, post_one n refl refl)

-- `simple_thread_pool_destroy` comes past its joins (if the handlers of the tasks return, and no other
-- thread uses the pool any more): from any state of the pool in which it sets `quit`, it and the
-- workers together make at most five times as many steps as there are workers, its posts and those
-- of the workers, however they interleave; and as long as it has a post to make or a worker has not
-- stopped, one of them can make a step.
pub destroy_joins :
    (cnt : ℤ) (p : Pool) (r : Closing) (k : ℕ)
    → Reach (create cnt) p
    → Runs (signalled cnt p) k r
    → (k ≤ 5 * thread_cnt cnt)
      × (((r.left ≡ 0) × AllStopped r.pool.workers) ⊎ ((s : Closing) × CloseStep r s))
destroy_joins cnt p r k reach run =
    let count : length p.workers ≡ thread_cnt cnt = Reach-length cnt reach in
    let v : Quitting (thread_cnt cnt) (record p { quit = true }) = record {
      quits = refl;
      posts = omega (arith, count, total_bounds p.workers);
    } in
    let (v', bound) = Runs-Quitting (signalled cnt p) run v in
    (omega (arith, bound, count, total_bounds p.workers), ends_or_steps r.left r.pool v')
