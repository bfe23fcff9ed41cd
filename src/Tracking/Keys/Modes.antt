-- ===== src/Tracking/Keys/Modes.antt =====
-- What holds between the key presses in tmp/TeacherRunning.cpp.
use libsimple.Base.{
  ℕ, ◌≡◌, refl, ap, Bool, true, false, not, List, ◌==◌, if◌then◌else◌, arith, Bool-cases, inl, inr,
  ltb, length,
}
use libsimple.Base.Int.{ℤ}
use libsimple.Outcome.{Holds, Holds-bind}
use libsimple.Tracking.Config.{KvConfig}
use libsimple.Tracking.Keys.{
  is_calibrating, key_calibrating_handle, save_calibration, key_in, traced_in, key_handle,
  mouse_detected, mouse_traced, center_on, handle_event, create,
}
use libsimple.Tracking.MountKeys.{
  key_running_handle, key_ptzinit_left_right_handle, key_ptziniting_handle,
}
use libsimple.Tracking.Points.{print_points}
use libsimple.Tracking.Tasks.{Task, PtzCall, task_ptz}
use libsimple.Tracking.Tracker.{
  State, running, calibrating, ptziniting, calibrating2, calibrating3, ptzinit_left, ptzinit_right,
  Tracker, Event, key, click_detecting, click_tracing, add_task, call_ptz, reset_ptz,
  set_running_state,
}

abbrev pub is_ptzinit : State → Bool
is_ptzinit ptziniting = true
is_ptzinit ptzinit_left = true
is_ptzinit ptzinit_right = true
is_ptzinit _ = false

-- The mask is in use unless an area is being marked, and the mount is left alone by the tracking
-- exactly while it is being set up.
abbrev Fit : State → Bool → ℕ → Type 0
Fit s mask rs = (mask ≡ not (is_calibrating s)) × (rs ≡ (if is_ptzinit s then 1 else 0))

abbrev pub Fits : {C : Type 0} → Tracker C → Type 0
Fits t = Fit t.state t.enable_mask t.running_state

module _ {C : Type 0} (kv : KvConfig C) where
  add_task-Fits : (task : Task) (t : Tracker C) → Fits t → Fits (add_task task t)
  unfolding add_task task_ptz
  add_task-Fits task t h = ground (arith, h)

  call_ptz-Fits : (cs : List PtzCall) (t : Tracker C) → Fits t → Fits (call_ptz cs t)
  unfolding call_ptz
  call_ptz-Fits cs t h = ground (arith, h)

  key_running_handle-Fits :
      (k : ℕ) (t : Tracker C) → t.state ≡ running → Fits t → Fits (key_running_handle kv k t)
  unfolding key_running_handle set_running_state reset_ptz call_ptz add_task task_ptz
  key_running_handle-Fits k t e h = ground (arith, h, e)

  mount_keys-Fits :
      (k : ℕ) (shift : Bool) (at : ℤ × ℤ × ℤ) (t : Tracker C)
      → is_ptzinit t.state ≡ true
      → is_calibrating t.state ≡ false
      → Fits t
      → Fits (key_ptzinit_left_right_handle kv k shift at t)
        × Fits (key_ptziniting_handle kv k shift at t)
  unfolding key_ptzinit_left_right_handle key_ptziniting_handle set_running_state add_task task_ptz
  mount_keys-Fits k shift (h, v, z) t p c f = (ground (arith, f, p, c), ground (arith, f, p, c))

  ends : (t : Tracker C) → Holds (λ cfg. Unit) (save_calibration kv t)
  unfolding save_calibration
  ends t = elim (Bool-cases (ltb (length t.calibrations) 4)) [
    | inl few ↦ rw few tt
    | inr many ↦ elim (Bool-cases (ltb (length (print_points t.calibrations)) 4096)) [
      | inl fits ↦ rw (many, fits) tt
      | inr long ↦ rw (many, long) tt
    ]
  ]

  key_calibrating_handle-Fits :
      (k : ℕ) (t : Tracker C)
      → is_calibrating t.state ≡ true
      → is_ptzinit t.state ≡ false
      → Fits t
      → Holds Fits (key_calibrating_handle kv k t)
  unfolding key_calibrating_handle
  key_calibrating_handle-Fits k t c p f = elim (Bool-cases (k == 27)) [
    | inl esc ↦ rw esc (ground (arith, f, p))
    | inr other ↦ elim (Bool-cases (k == 13)) [
      | inl enter ↦
          rw (other, enter)
            (Holds-bind (λ cfg. Unit) Fits (save_calibration kv t) _ (ends t)
              (λ cfg u. ground (arith, f, p)))
      | inr none_of ↦ rw (other, none_of) f
    ]
  ]

  key_handle-Fits :
      (s : State) (k : ℕ) (shift : Bool) (at : ℤ × ℤ × ℤ) (t : Tracker C)
      → t.state ≡ s
      → Fits t
      → Holds Fits (key_in kv s k shift at t)
  key_handle-Fits running k shift at t e f = (key_running_handle-Fits k t e f)
  key_handle-Fits calibrating k shift at t e f =
      (key_calibrating_handle-Fits k t (ap is_calibrating e) (ap is_ptzinit e) f)
  key_handle-Fits calibrating2 k shift at t e f =
      (key_calibrating_handle-Fits k t (ap is_calibrating e) (ap is_ptzinit e) f)
  key_handle-Fits calibrating3 k shift at t e f =
      (key_calibrating_handle-Fits k t (ap is_calibrating e) (ap is_ptzinit e) f)
  key_handle-Fits ptziniting k shift at t e f =
      (mount_keys-Fits k shift at t (ap is_ptzinit e) (ap is_calibrating e) f).1
  key_handle-Fits ptzinit_left k shift at t e f =
      (mount_keys-Fits k shift at t (ap is_ptzinit e) (ap is_calibrating e) f).0
  key_handle-Fits ptzinit_right k shift at t e f =
      (mount_keys-Fits k shift at t (ap is_ptzinit e) (ap is_calibrating e) f).0

  pub handle_event-Fits : (ev : Event) (t : Tracker C) → Fits t → Holds Fits (handle_event kv ev t)
  unfolding handle_event key_handle mouse_detected mouse_traced center_on
  handle_event-Fits (key k shift at) t f = key_handle-Fits t.state k shift at t refl f
  handle_event-Fits (click_detecting x y) t f = ground (arith, f)
  handle_event-Fits (click_tracing x y) t f = traced t.state
    where
      traced : (s : State) → Fits (traced_in kv s x y t)
      traced ptziniting = add_task-Fits _ t f
      traced running = f
      traced calibrating = f
      traced calibrating2 = f
      traced calibrating3 = f
      traced ptzinit_left = f
      traced ptzinit_right = f

  pub create-Fits :
      (cfg : C) (has_ptz : Bool) (edges : ℤ × ℤ × ℤ) → Fits (create kv cfg has_ptz edges)
  unfolding create reset_ptz
  create-Fits cfg has_ptz edges = add_task-Fits _ _ (refl, refl)
