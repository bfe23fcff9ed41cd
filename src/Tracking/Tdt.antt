-- ===== src/Tracking/Tdt.antt =====
-- tmp/tdt.cpp: the keys and the mouse of both trackers.
pub mod Modes
use libsimple.Base.{ℕ, Bool, List, [], ◌∷◌}
use libsimple.Base.Int.{ℤ}
use libsimple.Outcome.{Outcome, done, ◌>>=◌}
use libsimple.Tracking.Config.{KvConfig}
use libsimple.Tracking.Keys.{handle_event}
use libsimple.Tracking.Student.{student_event}
use libsimple.Tracking.Tracker.{Tracker, key, click_detecting, click_tracing}

-- The part of tdt_t that keys and clicks reach.
pub record Tdt (C : Type 0) : Type 0 where
  pub teacher : Tracker C
  pub student : Tracker C

-- A key, with the state of the shift key and where the two mounts say they are; or a button released in
-- one of the four windows.
pub data TdtEvent : Type 0 where
  pressed : ℕ → Bool → ℤ × ℤ × ℤ → ℤ × ℤ × ℤ → TdtEvent
  teacher_detect teacher_trace student_detect student_trace : ℤ → ℤ → TdtEvent

module _ {C : Type 0} (kv : KvConfig C) where
  abbrev pub with_teacher : Tdt C → Outcome (Tracker C) → Outcome (Tdt C)
  with_teacher s m = m >>= λ t. done (record s { teacher = t })

  abbrev pub with_student : Tdt C → Outcome (Tracker C) → Outcome (Tdt C)
  with_student s m = m >>= λ t. done (record s { student = t })

  -- WindowThread::handle_key, which hands a key to both, and the callbacks of the mouse
  unfoldable pub handle_tdt : TdtEvent → Tdt C → Outcome (Tdt C)
  unfolding handle_event student_event
  handle_tdt (pressed k shift at at') s =
      with_teacher s (handle_event kv (key k shift at) s.teacher) >>= λ s'.
      with_student s' (student_event kv (key k shift at') s'.student)
  handle_tdt (teacher_detect x y) s =
      with_teacher s (handle_event kv (click_detecting x y) s.teacher)
  handle_tdt (teacher_trace x y) s = with_teacher s (handle_event kv (click_tracing x y) s.teacher)
  handle_tdt (student_detect x y) s =
      with_student s (student_event kv (click_detecting x y) s.student)
  handle_tdt (student_trace x y) s = with_student s (student_event kv (click_tracing x y) s.student)

  unfoldable pub run_tdt : List TdtEvent → Tdt C → Outcome (Tdt C)
  unfolding handle_tdt
  run_tdt [] s = done s
  run_tdt (e ∷ es) s = handle_tdt e s >>= run_tdt es
