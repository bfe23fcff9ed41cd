-- ===== src/Tracking/Keys.antt =====
-- The keys and the mouse in tmp/TeacherRunning.cpp, with TeacherRunning.h: an operator marks the area
-- to look at and sets the mount up.
pub mod Modes
pub mod Save
use libsimple.Base.{
  ℕ, ◌/◌, ◌-◌, ◌+◌, Bool, true, false, ◌||◌, Option, none, some, List, [], ◌∷◌, ◌++◌, Bytes, length,
  ltb, ◌==◌, if◌then◌else◌,
}
use libsimple.Base.Int.{eq_ℕ, ℤ, pos, negsuc, ◌-ℤ◌}
use libsimple.Clib.Atoi.{atoi}
use libsimple.Clib.Text.{codes}
use libsimple.Outcome.{Outcome, done, fault, ◌>>=◌}
use libsimple.Tracking.Config.{KvConfig, or_default}
use libsimple.Tracking.Mask.{Mask, build_mask}
use libsimple.Tracking.Points.{Point, print_points, read_points}
use libsimple.Tracking.Tasks.{
  PtzCall, ptz_stop, ptz_zoom_stop, ptz_set_absolute_position, Task, move, zoom, center, reset,
  task_ptz,
}
use libsimple.Tracking.Tracker.{
  State, running, calibrating, ptziniting, calibrating2, calibrating3, ptzinit_left, ptzinit_right,
  Tracker, Event, key, click_detecting, click_tracing, half, add_task, call_ptz, int_value,
  reset_ptz, set_running_state,
}
use libsimple.Tracking.MountKeys.{
  key_running_handle, key_ptzinit_left_right_handle, key_ptziniting_handle,
}

-- the key that a calibration is kept under
abbrev pub data_key : State → Bytes
data_key calibrating = codes "calibration_data"
data_key calibrating2 = codes "calibration_data2"
data_key _ = codes "calibration_data3"

abbrev pub is_calibrating : State → Bool
is_calibrating calibrating = true
is_calibrating calibrating2 = true
is_calibrating calibrating3 = true
is_calibrating _ = false

module _ {C : Type 0} (kv : KvConfig C) where
  -- The new configuration; `pts` has room for 4096 bytes.
  unfoldable pub save_calibration : Tracker C → Outcome C
  save_calibration t =
      let text = print_points t.calibrations in
      if ltb (length t.calibrations) 4
      then done (kv.save_as (kv.set_value t.cfg (codes "calibration_data") []))
      else if ltb (length text) 4096
      then done (kv.save_as (kv.set_value t.cfg (data_key t.state) text))
      else fault

  abbrev pub points_at : C → Bytes → List Point
  points_at cfg k = read_points (kv.get_value cfg k)

  -- which points build_mask is called with
  unfoldable pub new_mask : State → Bool → C → Bool × Mask
  unfolding build_mask
  new_mask calibrating masked cfg =
      build_mask masked (points_at cfg (codes "calibration_data")) none
  new_mask _ masked cfg =
      build_mask masked (points_at cfg (codes "calibration_data2"))
        (some (points_at cfg (codes "calibration_data3")))

  abbrev pub with_mask : Tracker C → C → Bool × Mask → Tracker C
  with_mask t cfg (masked, img) = record t {
    cfg = cfg;
    masked = masked;
    img_mask = some img;
    enable_mask = true;
    state = running;
  }

  -- TeacherRunning::key_calibrating_handle
  unfoldable pub key_calibrating_handle : ℕ → Tracker C → Outcome (Tracker C)
  unfolding save_calibration new_mask
  key_calibrating_handle k t =
      if k == 27
      then done (record t { state = running; enable_mask = true })
      else if k == 13
      then (save_calibration t >>= λ cfg. done (with_mask t cfg (new_mask t.state t.masked cfg)))
      else done t

  -- the switch of TeacherRunning::key_handle
  abbrev pub key_in : State → ℕ → Bool → ℤ × ℤ × ℤ → Tracker C → Outcome (Tracker C)
  key_in running k shift at t = done (key_running_handle kv k t)
  key_in calibrating k shift at t = key_calibrating_handle k t
  key_in calibrating2 k shift at t = key_calibrating_handle k t
  key_in calibrating3 k shift at t = key_calibrating_handle k t
  key_in ptziniting k shift at t = done (key_ptziniting_handle kv k shift at t)
  key_in ptzinit_left k shift at t = done (key_ptzinit_left_right_handle kv k shift at t)
  key_in ptzinit_right k shift at t = done (key_ptzinit_left_right_handle kv k shift at t)

  -- TeacherRunning::key_handle
  unfoldable pub key_handle : ℕ → Bool → ℤ × ℤ × ℤ → Tracker C → Outcome (Tracker C)
  key_handle k shift at t = key_in t.state k shift at t

  abbrev pub add_point : ℤ → ℤ → Tracker C → Tracker C
  add_point x y t = record t { calibrations = t.calibrations ++ (record { x = x; y = y } ∷ []) }

  -- TeacherRunning::mouse_detected, for CV_EVENT_LBUTTONUP
  unfoldable pub mouse_detected : ℤ → ℤ → Tracker C → Tracker C
  mouse_detected x y t = if is_calibrating t.state then add_point x y t else t

  -- the task of mouse_traced
  unfoldable pub center_on : ℤ → ℤ → Tracker C → Tracker C
  unfolding int_value half add_task
  center_on x y t =
      let w = half (int_value kv t.cfg (codes "video_window") (codes "960")) in
      let h = half (int_value kv t.cfg (codes "video_height") (codes "540")) in
      add_task (center (x -ℤ w, w) (h -ℤ y, h) 30) t

  abbrev pub traced_in : State → ℤ → ℤ → Tracker C → Tracker C
  traced_in ptziniting x y t = center_on x y t
  traced_in _ x y t = t

  -- TeacherRunning::mouse_traced, for CV_EVENT_LBUTTONUP
  unfoldable pub mouse_traced : ℤ → ℤ → Tracker C → Tracker C
  mouse_traced x y t = traced_in t.state x y t

  unfoldable pub handle_event : Event → Tracker C → Outcome (Tracker C)
  handle_event (key k shift at) t = key_handle k shift at t
  handle_event (click_detecting x y) t = done (mouse_detected x y t)
  handle_event (click_tracing x y) t = done (mouse_traced x y t)

  -- TeacherRunning::load_roi
  unfoldable pub load_roi : C → List Point
  load_roi cfg =
      points_at cfg (codes "calibration_data2") ++ points_at cfg (codes "calibration_data3")

  -- The constructors of Running, TeacherRunning and TeacherPtz, up to the first reset_ptz of Ptz::run.
  unfoldable pub create : C → Bool → ℤ × ℤ × ℤ → Tracker C
  unfolding new_mask int_value reset_ptz
  create cfg has_ptz edges =
      let hog = int_value kv cfg (codes "hog_enabled") (codes "0") in
      let built = new_mask (if eq_ℕ hog 0 then calibrating2 else calibrating) false cfg in
      let no_mask = eq_ℕ (int_value kv cfg (codes "mask") (codes "1")) 0 in
      reset_ptz kv (record {
        state = running;
        calibrations = [];
        enable_mask = true;
        masked = if no_mask then false else built.0;
        img_mask = if no_mask then none else some built.1;
        cfg = cfg;
        running_state = 0;
        reseted = false;
        has_ptz = has_ptz;
        edges = edges;
        calls = [];
        tasks = [];
      })
