-- ===== src/Tracking/Tracker.antt =====
-- The state of tmp/TeacherRunning.cpp and tmp/StudentRunning.cpp, with what they use of Running.h and
-- of the mount (TeacherPtz.cpp, StudentPtz.h, Ptz.cpp).
use libsimple.Base.{
  ℕ, ◌/◌, ◌+◌, Bool, false, Option, none, some, List, [], ◌∷◌, ◌++◌, Bytes, ◌==◌, if◌then◌else◌,
}
use libsimple.Base.Int.{ℤ, pos, negsuc, ◌-ℤ◌}
use libsimple.Clib.Atoi.{atoi}
use libsimple.Clib.Text.{codes}
use libsimple.Tracking.Config.{KvConfig, or_default}
use libsimple.Tracking.Mask.{Mask}
use libsimple.Tracking.Points.{Point}
use libsimple.Tracking.Tasks.{PtzCall, Task, reset, task_ptz}

-- enum State of TeacherRunning; RunningState of StudentRunning has all but the last two.
pub data State : Type 0 where
  running calibrating ptziniting calibrating2 calibrating3 ptzinit_left ptzinit_right : State

-- The members of Running, TeacherRunning (or StudentRunning) and TeacherPtz (or StudentPtz) that the
-- handlers use. `calls` is what has been done to the mount at once, `tasks` what it is still asked.
pub record Tracker (C : Type 0) : Type 0 where
  pub state : State
  pub calibrations : List Point
  pub enable_mask : Bool
  pub masked : Bool
  pub img_mask : Option Mask
  pub cfg : C
  pub running_state : ℕ
  pub reseted : Bool
  pub has_ptz : Bool
  pub edges : ℤ × ℤ × ℤ
  pub calls : List PtzCall
  pub tasks : List Task

-- A key, with whether the shift key is down and where the mount says it is; or a button released in
-- the detecting or in the tracing window.
pub data Event : Type 0 where
  key : ℕ → Bool → ℤ × ℤ × ℤ → Event
  click_detecting click_tracing : ℤ → ℤ → Event

-- `n / 2` of an `int`
unfoldable pub half : ℤ → ℤ
half (pos n) = pos (n / 2)
half (negsuc n) = pos 0 -ℤ pos ((n + 1) / 2)

module _ {C : Type 0} where
  -- Ptz::add, through the pointer that a factory gives
  unfoldable pub add_task : Task → Tracker C → Tracker C
  unfolding task_ptz
  add_task task t = elim (task_ptz t.has_ptz task) [
    | none ↦ t
    | some task' ↦ record t { tasks = t.tasks ++ (task' ∷ []) }
  ]

  unfoldable pub call_ptz : List PtzCall → Tracker C → Tracker C
  call_ptz cs t = if t.has_ptz then record t { calls = t.calls ++ cs } else t

  -- TeacherPtz::set_running_state, of a state that is not negative
  unfoldable pub set_running_state : ℕ → Tracker C → Tracker C
  set_running_state s t = record t {
    running_state = s;
    reseted = if s == 0 then t.reseted else false;
  }

module _ {C : Type 0} (kv : KvConfig C) where
  unfoldable pub int_value : C → Bytes → Bytes → ℤ
  unfolding or_default atoi
  int_value cfg k default = atoi (or_default default (kv.get_value cfg k))

  -- Ptz::reset_ptz
  unfoldable pub reset_ptz : Tracker C → Tracker C
  unfolding add_task int_value
  reset_ptz t =
      add_task
        (reset (int_value t.cfg (codes "ptz_init_x") (codes "0"))
          (int_value t.cfg (codes "ptz_init_y") (codes "0"))
          (int_value t.cfg (codes "ptz_init_z") (codes "5000")))
        t
