-- ===== src/Tracking/Views.antt =====
-- The views of tmp/TeacherRunningImpl.cpp, with tmp/TeacherRunningImpl.h: the whole room, on the way to
-- a close view, and the close view. A time is a natural number of some unit; what the geometry of the
-- two cameras works out is a parameter.
pub mod Gone
pub mod Aim
pub use libsimple.Tracking.Working.{
  View, fullview, to_close, closeview, TracingResult, ok, no_enough_pts, no_enough_valid_pts,
  too_old_valid_pt, TracingInfo, TracingData, Camera, Limits, Working,
}
use libsimple.Base.{
  ℕ, zero, suc, ◌+◌, ◌*◌, ◌/◌, Bool, true, false, not, ◌&&◌, Option, none, some, List, [], ◌∷◌,
  ◌++◌, ltb, if◌then◌else◌,
}
use libsimple.Base.Int.{ℤ, pos, negsuc, ◌-ℤ◌, ltb_ℤ, minus_one}
use libsimple.Clib.Text.{codes}
use libsimple.Outcome.{Outcome, done, fault, ◌>>=◌}
use libsimple.Tracking.Analyze.{
  Detected, Rect, update_data, data_duration, data_valided, data_last_valid, data_vec, data_range,
}
use libsimple.Tracking.Config.{KvConfig}
use libsimple.Tracking.Points.{Point}
use libsimple.Tracking.Tasks.{Task, reset, PtzCall, ptz_set_absolute_position}
use libsimple.Tracking.Tracker.{half, int_value}

unfoldable pub abs : ℤ → ℕ
abs (pos n) = n
abs (negsuc n) = suc n

-- `n * 2 / 3` of an `int`
unfoldable pub two_thirds : ℤ → ℤ
two_thirds (pos n) = pos (n * 2 / 3)
two_thirds (negsuc n) = pos 0 -ℤ pos (suc n * 2 / 3)

-- the condition of state_fullview
unfoldable pub is_settled : Limits → ℤ × ℤ → TracingInfo → Bool
unfolding two_thirds
is_settled lim (width, height) i =
    not (ltb_ℤ i.valid_duration (pos lim.analyze_interval))
    && ltb_ℤ i.rc_trace.width width
    && ltb_ℤ i.rc_trace.height height
    && ltb_ℤ i.hvec (two_thirds i.rc_detect.width)
    && not (ltb_ℤ i.rc_detect.height i.vvec)

module _ {C : Type 0} where
  -- TeacherWorkingThread::add
  unfoldable pub add : Task → Working C → Working C
  add task w = record w { tasks = w.tasks ++ (task ∷ []); posts = suc w.posts }

  abbrev pub to_view : View → Working C → Working C
  to_view v w = record w { info = record w.info { next_state = v } }

  -- state_toclose, with the mount at `at`
  unfoldable pub state_toclose : ℤ × ℤ → Working C → Working C
  unfolding abs
  state_toclose (h, v) w =
      if not w.has_ptz
      then to_view fullview w
      else if ltb (abs (h -ℤ w.info.to.0)) 3 && ltb (abs (v -ℤ w.info.to.1)) 3
      then to_view closeview w
      else w

  -- state_closeview
  unfoldable pub state_closeview : Working C → Working C
  unfolding abs half
  state_closeview w =
      if ltb_ℤ (half w.stable.0) (pos (abs w.info.pt_trace_last.x)) then to_view fullview w else w

  -- set_ptz_abs_pos, with the place that it leaves in ToClose
  unfoldable pub point_at : ℤ × ℤ → Working C → Working C
  point_at to w =
      if w.has_ptz
      then (record w {
        info = record w.info { to = to };
        calls = w.calls ++ (ptz_set_absolute_position to.0 to.1 30 ∷ []);
      })
      else w

module _ {C : Type 0} (kv : KvConfig C) where
  -- TracingData::init
  unfoldable pub init_tracing : C → TracingData
  unfolding int_value
  init_tracing cfg = record {
    max_speed = int_value kv cfg (codes "ptz_max_speed") (codes "10");
    min_speed = int_value kv cfg (codes "ptz_min_speed") (codes "1");
    speed = int_value kv cfg (codes "ptz_init_speed") (codes "2");
    is_middle = true;
    distance = minus_one;
  }

  -- TeacherWorkingThread::reset_ptz
  unfoldable pub reset_working : Working C → Working C
  unfolding add int_value
  reset_working w =
      let home =
        reset (int_value kv w.cfg (codes "ptz_init_x") (codes "0"))
          (int_value kv w.cfg (codes "ptz_init_y") (codes "0"))
          (int_value kv w.cfg (codes "ptz_init_z") (codes "5000")) in
      record (if w.has_ptz then add home w else w) { test_last_dir = minus_one }

  -- state_fullview, by the result
  unfoldable pub state_fullview : Camera → Limits → TracingResult → Working C → Working C
  unfolding is_settled point_at reset_working
  state_fullview cam lim ok w =
      if is_settled lim w.stable w.info
      then to_view to_close (point_at (cam.point_cov w.info.pt_detect_last) w)
      else w
  state_fullview cam lim too_old_valid_pt w = reset_working w
  state_fullview cam lim no_enough_pts w = w
  state_fullview cam lim no_enough_valid_pts w = w

  abbrev pub set_view : View → Working C → Working C
  set_view v w = record w { view = v }

  -- change_state
  unfoldable pub change_state : View → Working C → Working C
  unfolding init_tracing
  change_state fullview w = record (set_view fullview w) { tracing = init_tracing w.cfg }
  change_state to_close w = set_view to_close w
  change_state closeview w = set_view closeview w

  -- `if (trace_info_.next_state != state_) change_state(trace_info_.next_state)`
  unfoldable pub to_next : View → View → Working C → Working C
  unfolding change_state
  to_next fullview fullview w = w
  to_next to_close to_close w = w
  to_next closeview closeview w = w
  to_next _ next w = change_state next w

  -- `(this->*state_funcs_[state_])(trace_info_)`, from the state itself, and the change
  unfoldable pub run_state : Camera → Limits → ℤ × ℤ → View → Working C → Working C
  unfolding state_fullview state_toclose state_closeview
  run_state cam lim at fullview w = state_fullview cam lim w.info.result (to_view fullview w)
  run_state cam lim at to_close w = state_toclose at (to_view to_close w)
  run_state cam lim at closeview w = state_closeview (to_view closeview w)

  abbrev pub trace_from : Camera → Limits → ℤ × ℤ → View → Working C → Working C
  trace_from cam lim at v w = let w1 = run_state cam lim at v w in to_next v w1.info.next_state w1

  unfoldable pub trace : Camera → Limits → ℤ × ℤ → Working C → Working C
  unfolding run_state to_next
  trace cam lim at w = trace_from cam lim at w.view w

-- trace_info_.result; `usable` is what update_data has returned.
unfoldable pub judge : Limits → ℕ → Bool → Detected → List Detected → TracingResult
unfolding data_valided
judge lim curr usable last recent =
    if ltb (last.stamp + lim.to_stop_tracing) curr
    then too_old_valid_pt
    else if not usable
    then no_enough_pts
    else if ltb (data_valided recent).0 2
    then no_enough_valid_pts
    else ok

module _ {C : Type 0} where
  abbrev pub set_result : TracingResult → Working C → Working C
  set_result r w = record w {
    info = record w.info { result = r };
    trace_last_pos = record { x = negsuc 999; y = negsuc 999 };
  }

  -- What trytrace works out for a good result; without a mount it points straight on.
  unfoldable pub look : Camera → ℤ × ℤ → Detected → List Detected → Working C → Working C
  unfolding data_range data_vec data_duration
  look cam at last recent w =
      let rc = (data_range (pos 0, pos 0, pos 0) recent).0 in
      let (rc_trace, pt_trace) =
        cam.det2tra (if w.has_ptz then at else (pos 0, pos 0)) rc last.pt in
      let (h, v) = data_vec recent in
      record w {
        info = record w.info {
          rc_detect = rc;
          rc_trace = rc_trace;
          pt_detect_last = last.pt;
          pt_trace_last = pt_trace;
          valid_duration = (data_duration recent).1;
          hvec = h;
          vvec = v;
        };
        trace_last_pos = pt_trace;
      }

module _ {C : Type 0} (kv : KvConfig C) where
  abbrev pub trace_by :
      Camera → Limits → ℤ × ℤ → TracingResult → Detected → List Detected → Working C → Working C
  trace_by cam lim at ok last recent w = trace kv cam lim at (look cam at last recent w)
  trace_by cam lim at _ last recent w = trace kv cam lim at w

  -- trytrace after update_data; the stamp of the last valid point is not set without one.
  unfoldable pub trace_recent :
      Camera → Limits → ℤ × ℤ → ℕ → List Detected → Bool → Working C → Outcome (Working C)
  unfolding judge look trace data_last_valid
  trace_recent cam lim at curr recent usable w = elim (data_last_valid recent) [
    | none ↦ fault
    | some last ↦
        let r = judge lim curr usable last recent in
        done (trace_by cam lim at r last recent (set_result r w))
  ]

  -- TeacherWorkingThread::trytrace
  unfoldable pub trytrace :
      Camera → Limits → ℤ × ℤ → ℕ → List Detected → Working C → Outcome (Working C)
  unfolding update_data trace_recent
  trytrace cam lim at curr ds w =
      update_data lim.second lim.analyze_interval ds >>= λ (recent, usable).
      trace_recent cam lim at curr recent usable w
