-- ===== src/Tracking/Student.antt =====
-- The keys and the mouse in tmp/StudentRunning.cpp: one line of calibration, and the first position
-- of the mount. Its members are those of Tracker that it has; its states are the three it uses.
use libsimple.Base.{ℕ, Bool, true, false, some, [], ◌∷◌, length, ltb, ◌==◌, if◌then◌else◌}
use libsimple.Base.Int.{ℤ, pos}
use libsimple.Clib.Text.{codes}
use libsimple.Outcome.{Outcome, done, fault, ◌>>=◌}
use libsimple.Tracking.Config.{KvConfig}
use libsimple.Tracking.Keys.{add_point, center_on, create}
use libsimple.Tracking.Mask.{build_mask}
use libsimple.Tracking.MountKeys.{move_key}
use libsimple.Tracking.Points.{print_points, read_points}
use libsimple.Tracking.Tasks.{ptz_stop, ptz_zoom_stop}
use libsimple.Tracking.Tracker.{
  State, running, calibrating2, ptziniting, Tracker, Event, key, click_detecting, click_tracing,
  call_ptz, reset_ptz,
}

module _ {C : Type 0} where
  -- StudentPtz::set_running_state and the state of StudentRunning
  abbrev pub student_state : ℕ → State → Tracker C → Tracker C
  student_state n s t = record t { running_state = n; state = s }

module _ {C : Type 0} (kv : KvConfig C) where
  -- StudentRunning::key_handle_running
  unfoldable pub key_handle_running : ℕ → Tracker C → Tracker C
  unfolding call_ptz reset_ptz
  key_handle_running k t =
      if k == b'B'
      then record t { state = calibrating2; calibrations = []; enable_mask = false }
      else if k == b'P'
      then reset_ptz kv (student_state 1 ptziniting (call_ptz (ptz_stop ∷ ptz_zoom_stop ∷ []) t))
      else t

  unfoldable pub save_student_init : ℤ × ℤ × ℤ → Tracker C → Tracker C
  save_student_init (h, v, z) t =
      let cfg1 = kv.set_int t.cfg (codes "ptz_init_x") h in
      let cfg2 = kv.set_int cfg1 (codes "ptz_init_y") v in
      let cfg3 = kv.set_int cfg2 (codes "ptz_init_z") z in
      if t.has_ptz then record t { cfg = kv.save_as cfg3 } else t

  -- StudentRunning::key_handle_ptziniting; the keys that move the mount are those of the teacher's.
  unfoldable pub key_handle_ptziniting : ℕ → Bool → ℤ × ℤ × ℤ → Tracker C → Tracker C
  unfolding save_student_init move_key
  key_handle_ptziniting k shift at t =
      if k == 27
      then student_state 0 running t
      else if k == 13
      then student_state 0 running (save_student_init at t)
      else move_key k (if shift then 50 else 250) t

  -- what Enter writes, in calibrating2
  unfoldable pub save_line : Tracker C → Outcome C
  save_line t =
      let text = print_points t.calibrations in
      if ltb (length t.calibrations) 4
      then done (kv.save_as (kv.set_value t.cfg (codes "calibration_data") []))
      else if ltb (length text) 4096
      then done (kv.save_as (kv.set_value t.cfg (codes "calibration_data2") text))
      else fault

  -- `img_mask_ = build_mask("calibration_data2", "calibration_data3")`, and back
  abbrev pub with_line : Tracker C → C → Tracker C
  with_line t cfg =
      let built =
        build_mask t.masked (read_points (kv.get_value cfg (codes "calibration_data2")))
          (some (read_points (kv.get_value cfg (codes "calibration_data3")))) in
      record t {
        cfg = cfg;
        masked = built.0;
        img_mask = some built.1;
        enable_mask = true;
        state = running;
      }

  -- StudentRunning::key_handle_calibrating
  unfoldable pub key_handle_calibrating : ℕ → Tracker C → Outcome (Tracker C)
  unfolding save_line build_mask
  key_handle_calibrating k t =
      if k == 27
      then done (record t { state = running; enable_mask = true })
      else if k == 13
      then (save_line t >>= λ cfg. done (with_line t cfg))
      else done t

  -- the switch of StudentRunning::key_handle
  abbrev pub student_key_in : State → ℕ → Bool → ℤ × ℤ × ℤ → Tracker C → Outcome (Tracker C)
  student_key_in running k shift at t = done (key_handle_running k t)
  student_key_in ptziniting k shift at t = done (key_handle_ptziniting k shift at t)
  student_key_in calibrating2 k shift at t = key_handle_calibrating k t
  student_key_in _ k shift at t = done t

  abbrev pub student_detected : State → ℤ → ℤ → Tracker C → Tracker C
  student_detected calibrating2 x y t = add_point kv x y t
  student_detected _ x y t = t

  abbrev pub student_traced : State → ℤ → ℤ → Tracker C → Tracker C
  student_traced ptziniting x y t = center_on kv x y t
  student_traced _ x y t = t

  -- key_handle, and mouse_detected and mouse_traced for CV_EVENT_LBUTTONUP
  unfoldable pub student_event : Event → Tracker C → Outcome (Tracker C)
  unfolding key_handle_running key_handle_ptziniting key_handle_calibrating center_on
  student_event (key k shift at) t = student_key_in t.state k shift at t
  student_event (click_detecting x y) t = done (student_detected t.state x y t)
  student_event (click_tracing x y) t = done (student_traced t.state x y t)

  -- The constructors of Running and StudentRunning; state_ of StudentPtz is not set.
  unfoldable pub student_create : C → Bool → ℕ → Tracker C
  unfolding create
  student_create cfg has_ptz junk = record (create kv cfg has_ptz (pos 0, pos 0, pos 0)) {
    running_state = junk;
  }
