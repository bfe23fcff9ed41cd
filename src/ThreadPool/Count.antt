-- ===== src/ThreadPool/Count.antt =====
-- Counting the workers in a phase, and the occurrences of a task.
use libsimple.Base.{
  ℕ, zero, suc, ◌+◌, ◌≡◌, refl, Option, some, List, [], ◌∷◌, ◌++◌, arith, ◌==◌, if◌then◌else◌,
  replicate,
}
use libsimple.ThreadPool.{Phase, woken, taking, running, Worker}

-- The sum of a number for each element.
abbrev pub total {ℓ} : {A : Type ℓ} → (A → ℕ) → List A → ℕ
total f [] = 0
total f (w ∷ ws) = f w + total f ws

pub total-append {ℓ} :
    {A : Type ℓ} (f : A → ℕ) (ws vs : List A) → total f (ws ++ vs) ≡ total f ws + total f vs
total-append f [] vs = omega arith
total-append f (w ∷ ws) vs = omega (arith, total-append f ws vs)

-- 1 for the same task, and how often it occurs.
abbrev pub same : ℕ → ℕ → ℕ
same a t = if t == a then 1 else 0

abbrev pub count : ℕ → List ℕ → ℕ
count a = total (same a)

pub total-replicate : (f : Worker → ℕ) (n : ℕ) (w : Worker) → f w ≡ 0 → total f (replicate n w) ≡ 0
total-replicate f zero w h = refl
total-replicate f (suc n) w h = omega (arith, total-replicate f n w h)

abbrev pub taking_phase : Phase → ℕ
taking_phase taking = 1
taking_phase _ = 0

-- 1 for a worker that is about to take a task.
abbrev pub is_taking : Worker → ℕ
is_taking w = taking_phase w.phase

abbrev woken_phase : Phase → ℕ
woken_phase woken = 1
woken_phase _ = 0

-- 1 for a worker that has been woken and has not looked at `quit`.
abbrev pub is_woken : Worker → ℕ
is_woken w = woken_phase w.phase

abbrev holds_task : ℕ → Phase → Option ℕ → ℕ
holds_task a running (some t) = if a == t then 1 else 0
holds_task a _ _ = 0

-- 1 for a worker that is about to run the task `a`.
abbrev pub is_holding : ℕ → Worker → ℕ
is_holding a w = holds_task a w.phase w.task
