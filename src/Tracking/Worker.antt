-- ===== src/Tracking/Worker.antt =====
-- The thread of tmp/TeacherRunningImpl.h: what other threads hand it, and its loop.
pub mod Posts
pub mod Spin
use libsimple.Base.{
  ℕ, zero, suc, ◌+◌, Bool, true, false, not, ◌&&◌, List, [], ◌∷◌, ◌++◌, length, ltb, ◌==◌,
  if◌then◌else◌,
}
use libsimple.Base.Int.{ℤ}
use libsimple.Outcome.{Outcome, done, ◌>>=◌}
use libsimple.Tracking.Analyze.{Detected}
use libsimple.Tracking.Config.{KvConfig}
use libsimple.Tracking.Tasks.{Task, handle_task}
use libsimple.Tracking.Views.{Camera, Limits, Working, add, trytrace}

-- The points that ChkTimeoutTeacherDetected does not take out at a time.
unfoldable pub keep_new : ℕ → ℕ → List Detected → List Detected
keep_new span now [] = []
keep_new span now (d ∷ ds) =
    let rest = keep_new span now ds in if ltb (d.stamp + span) now then rest else d ∷ rest

module _ {C : Type 0} where
  -- set_camshift_pt, for a point that comes now; `span` is analyze_duration.
  unfoldable pub set_camshift_pt : ℕ → Detected → Working C → Working C
  unfolding keep_new
  set_camshift_pt span d w = record w {
    detected = keep_new span d.stamp (w.detected ++ (d ∷ []));
    posts = suc w.posts;
  }

  -- The next of the tasks, none of which the program refuses to do.
  unfoldable pub do_first : List Task → Working C → Working C
  unfolding handle_task
  do_first [] w = w
  do_first (t ∷ ts) w = record w { tasks = ts; calls = w.calls ++ handle_task t }

  -- next, and what the loop does with the task
  unfoldable pub do_next : Working C → Working C
  unfolding do_first
  do_next w = do_first w.tasks w

module _ {C : Type 0} (kv : KvConfig C) (cam : Camera) (lim : Limits) where
  -- The body of the loop of run, after sem_.wait.
  unfoldable pub one_loop : ℤ × ℤ → ℕ → Working C → Outcome (Working C)
  unfolding trytrace do_next
  one_loop at curr w =
      if (w.running_state == 0) && not (ltb (length w.detected) 2)
      then (trytrace kv cam lim at curr w.detected w >>= λ w'. done (do_next w'))
      else done (do_next w)

  abbrev pub wake_at : ℕ → ℤ × ℤ → ℕ → Working C → Outcome (Working C)
  wake_at zero at curr w = done w
  wake_at (suc n) at curr w = one_loop at curr (record w { posts = n })

  -- One turn of the loop of run; without a post it waits, and nothing happens.
  unfoldable pub wake : ℤ × ℤ → ℕ → Working C → Outcome (Working C)
  unfolding one_loop
  wake at curr w = wake_at w.posts at curr w

-- What happens to the thread: a point comes, another thread asks for something, or it is its turn, with
-- where the mount is, at a time.
pub data Input : Type 0 where
  camshift : ℕ → Detected → Input
  ask : Task → Input
  turn : ℤ × ℤ → ℕ → Input

module _ {C : Type 0} (kv : KvConfig C) (cam : Camera) (lim : Limits) where
  unfoldable pub on_input : Input → Working C → Outcome (Working C)
  unfolding set_camshift_pt add wake
  on_input (camshift span d) w = done (set_camshift_pt span d w)
  on_input (ask t) w = done (add t w)
  on_input (turn at curr) w = wake kv cam lim at curr w

  unfoldable pub on_inputs : List Input → Working C → Outcome (Working C)
  unfolding on_input
  on_inputs [] w = done w
  on_inputs (i ∷ is) w = on_input i w >>= on_inputs is
