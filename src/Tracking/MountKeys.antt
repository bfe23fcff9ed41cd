-- ===== src/Tracking/MountKeys.antt =====
-- The keys of tmp/TeacherRunning.cpp that begin something, and those that set the mount up.
use libsimple.Base.{ℕ, Bool, true, false, [], ◌∷◌, Bytes, ◌==◌, if◌then◌else◌}
use libsimple.Base.Int.{ℤ}
use libsimple.Clib.Text.{codes}
use libsimple.Tracking.Config.{KvConfig}
use libsimple.Tracking.Tasks.{ptz_stop, ptz_zoom_stop, ptz_set_absolute_position, move, zoom}
use libsimple.Tracking.Tracker.{
  State, running, calibrating, ptziniting, calibrating2, calibrating3, ptzinit_left, ptzinit_right,
  Tracker, add_task, call_ptz, reset_ptz, set_running_state,
}

edge_key : State → Bytes
edge_key ptzinit_left = codes "ptz_left"
edge_key _ = codes "ptz_right"

module _ {C : Type 0} where
  start_calibrating : State → Tracker C → Tracker C
  start_calibrating s t = record t { state = s; calibrations = []; enable_mask = false }

  stop_moving : Tracker C → Tracker C
  unfolding call_ptz
  stop_moving = call_ptz (ptz_stop ∷ ptz_zoom_stop ∷ [])

  -- case 'l' and 'r', with turn_left_edge and turn_right_edge
  start_edge : State → ℤ → Tracker C → Tracker C
  unfolding set_running_state stop_moving call_ptz
  start_edge s h t =
      let t1 = set_running_state 1 (stop_moving (set_running_state 1 t)) in
      call_ptz (ptz_set_absolute_position h t.edges.2 30 ∷ []) (record t1 { state = s })

  -- the way back from the mount
  end_ptzinit : Tracker C → Tracker C
  unfolding set_running_state
  end_ptzinit t = record (set_running_state 0 t) { state = running }

  arrow : ℕ → ℕ → Tracker C → Tracker C
  unfolding add_task
  arrow k timeout t =
      if k == 0x250000
      then add_task (move 1 1 timeout) t
      else if k == 0x270000
      then add_task (move 2 1 timeout) t
      else t

  -- the keys that move the mount in key_ptziniting_handle
  unfoldable pub move_key : ℕ → ℕ → Tracker C → Tracker C
  unfolding add_task arrow
  move_key k timeout t =
      if k == 0x3d
      then add_task (zoom true 7 100) t
      else if k == 0x2b
      then add_task (zoom true 7 200) t
      else if k == 0x5f
      then add_task (zoom false 7 100) t
      else if k == 0x2d
      then add_task (zoom false 7 200) t
      else if k == 0x260000
      then add_task (move 3 1 timeout) t
      else if k == 0x280000
      then add_task (move 4 1 timeout) t
      else arrow k timeout t

module _ {C : Type 0} (kv : KvConfig C) where
  -- case 'p'
  start_ptzinit : Tracker C → Tracker C
  unfolding set_running_state stop_moving reset_ptz
  start_ptzinit t =
      reset_ptz kv (record (set_running_state 1 (stop_moving t)) { state = ptziniting })

  -- TeacherRunning::key_running_handle
  unfoldable pub key_running_handle : ℕ → Tracker C → Tracker C
  unfolding start_calibrating start_ptzinit start_edge
  key_running_handle k t =
      if k == b'c'
      then start_calibrating calibrating t
      else if k == b'b'
      then start_calibrating calibrating2 t
      else if k == b'd'
      then start_calibrating calibrating3 t
      else if k == b'p'
      then start_ptzinit t
      else if k == b'l'
      then start_edge ptzinit_left t.edges.0 t
      else if k == b'r'
      then start_edge ptzinit_right t.edges.1 t
      else t

  save_edge : ℤ → Tracker C → Tracker C
  unfolding edge_key
  save_edge h t =
      if t.has_ptz then record t { cfg = kv.save_as (kv.set_int t.cfg (edge_key t.state) h) } else t

  -- TeacherRunning::key_ptzinit_left_right_handle
  unfoldable pub key_ptzinit_left_right_handle : ℕ → Bool → ℤ × ℤ × ℤ → Tracker C → Tracker C
  unfolding end_ptzinit arrow save_edge
  key_ptzinit_left_right_handle k shift (h, v, z) t =
      if k == 27
      then end_ptzinit t
      else if k == 13
      then end_ptzinit (save_edge h t)
      else arrow k (if shift then 100 else 200) t

  save_init : ℤ → ℤ → ℤ → Tracker C → Tracker C
  save_init h v z t =
      let cfg1 = kv.set_int t.cfg (codes "ptz_init_x") h in
      let cfg2 = kv.set_int cfg1 (codes "ptz_init_y") v in
      let cfg3 = kv.set_int cfg2 (codes "ptz_init_z") z in
      if t.has_ptz then record t { cfg = kv.save_as cfg3 } else t

  -- TeacherRunning::key_ptziniting_handle
  unfoldable pub key_ptziniting_handle : ℕ → Bool → ℤ × ℤ × ℤ → Tracker C → Tracker C
  unfolding end_ptzinit save_init move_key
  key_ptziniting_handle k shift (h, v, z) t =
      if k == 27
      then end_ptzinit t
      else if k == 13
      then end_ptzinit (save_init h v z t)
      else move_key k (if shift then 50 else 250) t
