-- ===== src/Tracking/Tdt/Modes.antt =====
-- What holds of both trackers of tmp/tdt.cpp between the key presses.
use libsimple.Base.{
  ℕ, ◌≡◌, refl, ap, Bool, true, false, not, List, [], ◌∷◌, ltb, length, ◌==◌, arith, Bool-cases,
  inl, inr,
}
use libsimple.Base.Int.{ℤ, pos}
use libsimple.Outcome.{Holds, Holds-bind}
use libsimple.Tracking.Config.{KvConfig}
use libsimple.Tracking.Keys.{is_calibrating, center_on, create, handle_event}
use libsimple.Tracking.Keys.Modes.{Fits, handle_event-Fits, create-Fits}
use libsimple.Tracking.MountKeys.{move_key}
use libsimple.Tracking.Points.{print_points}
use libsimple.Tracking.Student.{
  key_handle_running, key_handle_ptziniting, key_handle_calibrating, save_student_init, save_line,
  student_key_in, student_detected, student_traced, student_event, student_create,
}
use libsimple.Tracking.Tasks.{Task, task_ptz}
use libsimple.Tracking.Tdt.{
  Tdt, TdtEvent, pressed, teacher_detect, teacher_trace, student_detect, student_trace,
  with_teacher, with_student, handle_tdt, run_tdt,
}
use libsimple.Tracking.Tracker.{
  State, running, calibrating, ptziniting, calibrating2, calibrating3, ptzinit_left, ptzinit_right,
  Tracker, Event, key, click_detecting, click_tracing, add_task, call_ptz, reset_ptz,
}

abbrev pub is_student : State → Bool
is_student running = true
is_student calibrating2 = true
is_student ptziniting = true
is_student _ = false

-- The student's tracker is in one of its three states, and its mask is in use unless the line is being
-- marked.
abbrev pub FitsStudent : {C : Type 0} → Tracker C → Type 0
FitsStudent t = (t.enable_mask ≡ not (is_calibrating t.state)) × (is_student t.state ≡ true)

module _ {C : Type 0} (kv : KvConfig C) where
  running-FitsStudent :
      (k : ℕ) (t : Tracker C)
      → t.state ≡ running
      → FitsStudent t
      → FitsStudent (key_handle_running kv k t)
  unfolding key_handle_running call_ptz reset_ptz add_task task_ptz
  running-FitsStudent k t e f = ground (arith, f, e)

  ptziniting-FitsStudent :
      (k : ℕ) (shift : Bool) (at : ℤ × ℤ × ℤ) (t : Tracker C)
      → t.state ≡ ptziniting
      → FitsStudent t
      → FitsStudent (key_handle_ptziniting kv k shift at t)
  unfolding key_handle_ptziniting save_student_init move_key add_task task_ptz
  ptziniting-FitsStudent k shift (h, v, z) t e f = ground (arith, f, e)

  ends : (t : Tracker C) → Holds (λ cfg. Unit) (save_line kv t)
  unfolding save_line
  ends t = elim (Bool-cases (ltb (length t.calibrations) 4)) [
    | inl few ↦ rw few tt
    | inr many ↦ elim (Bool-cases (ltb (length (print_points t.calibrations)) 4096)) [
      | inl fits ↦ rw (many, fits) tt
      | inr long ↦ rw (many, long) tt
    ]
  ]

  calibrating-FitsStudent :
      (k : ℕ) (t : Tracker C) → FitsStudent t → Holds FitsStudent (key_handle_calibrating kv k t)
  unfolding key_handle_calibrating
  calibrating-FitsStudent k t f = elim (Bool-cases (k == 27)) [
    | inl esc ↦ rw esc (refl, refl)
    | inr other ↦ elim (Bool-cases (k == 13)) [
      | inl enter ↦
          rw (other, enter)
            (Holds-bind (λ cfg. Unit) FitsStudent (save_line kv t) _ (ends t)
              (λ cfg u. (refl, refl)))
      | inr none_of ↦ rw (other, none_of) f
    ]
  ]

  key-FitsStudent :
      (s : State) (k : ℕ) (shift : Bool) (at : ℤ × ℤ × ℤ) (t : Tracker C)
      → t.state ≡ s
      → FitsStudent t
      → Holds FitsStudent (student_key_in kv s k shift at t)
  key-FitsStudent running k shift at t e f = running-FitsStudent k t e f
  key-FitsStudent ptziniting k shift at t e f = ptziniting-FitsStudent k shift at t e f
  key-FitsStudent calibrating2 k shift at t e f = calibrating-FitsStudent k t f
  key-FitsStudent calibrating k shift at t e f = f
  key-FitsStudent calibrating3 k shift at t e f = f
  key-FitsStudent ptzinit_left k shift at t e f = f
  key-FitsStudent ptzinit_right k shift at t e f = f

  detected-FitsStudent :
      (s : State) (x y : ℤ) (t : Tracker C)
      → FitsStudent t
      → FitsStudent (student_detected kv s x y t)
  detected-FitsStudent s x y t f = ground (arith, f)

  traced-FitsStudent :
      (s : State) (x y : ℤ) (t : Tracker C)
      → FitsStudent t
      → FitsStudent (student_traced kv s x y t)
  unfolding center_on add_task task_ptz
  traced-FitsStudent s x y t f = ground (arith, f)

  event-FitsStudent :
      (e : Event) (t : Tracker C) → FitsStudent t → Holds FitsStudent (student_event kv e t)
  unfolding student_event
  event-FitsStudent (key k shift at) t f = key-FitsStudent t.state k shift at t refl f
  event-FitsStudent (click_detecting x y) t f = detected-FitsStudent t.state x y t f
  event-FitsStudent (click_tracing x y) t f = traced-FitsStudent t.state x y t f

  add_task-state : (task : Task) (t : Tracker C) → (add_task task t).state ≡ t.state
  unfolding add_task task_ptz
  add_task-state task t = ground arith

  create-FitsStudent :
      (cfg : C) (has_ptz : Bool) (junk : ℕ) → FitsStudent (student_create kv cfg has_ptz junk)
  unfolding student_create create reset_ptz
  create-FitsStudent cfg has_ptz junk =
      let c = create kv cfg has_ptz (pos 0, pos 0, pos 0) in
      let at_first : c.state ≡ running = add_task-state _ _ in
      ((create-Fits kv cfg has_ptz (pos 0, pos 0, pos 0)).0, ap is_student at_first)

  -- Both trackers are as they have to be.
  abbrev pub FitsBoth : Tdt C → Type 0
  FitsBoth s = Fits s.teacher × FitsStudent s.student

  teacher-FitsBoth :
      (e : Event) (s : Tdt C)
      → FitsBoth s
      → Holds FitsBoth (with_teacher kv s (handle_event kv e s.teacher))
  teacher-FitsBoth e s (f, g) =
      Holds-bind Fits FitsBoth (handle_event kv e s.teacher) _ (handle_event-Fits kv e s.teacher f)
        (λ t h. (h, g))

  student-FitsBoth :
      (e : Event) (s : Tdt C)
      → FitsBoth s
      → Holds FitsBoth (with_student kv s (student_event kv e s.student))
  student-FitsBoth e s (f, g) =
      Holds-bind FitsStudent FitsBoth (student_event kv e s.student) _
        (event-FitsStudent e s.student g) (λ t h. (f, h))

  handle_tdt-FitsBoth : (e : TdtEvent) (s : Tdt C) → FitsBoth s → Holds FitsBoth (handle_tdt kv e s)
  unfolding handle_tdt
  handle_tdt-FitsBoth (pressed k shift at at') s f =
      Holds-bind FitsBoth FitsBoth (with_teacher kv s (handle_event kv (key k shift at) s.teacher))
        _ (teacher-FitsBoth (key k shift at) s f)
        (λ s' f'. student-FitsBoth (key k shift at') s' f')
  handle_tdt-FitsBoth (teacher_detect x y) s f = teacher-FitsBoth (click_detecting x y) s f
  handle_tdt-FitsBoth (teacher_trace x y) s f = teacher-FitsBoth (click_tracing x y) s f
  handle_tdt-FitsBoth (student_detect x y) s f = student-FitsBoth (click_detecting x y) s f
  handle_tdt-FitsBoth (student_trace x y) s f = student-FitsBoth (click_tracing x y) s f

  run_tdt-FitsBoth :
      (es : List TdtEvent) (s : Tdt C) → FitsBoth s → Holds FitsBoth (run_tdt kv es s)
  unfolding run_tdt
  run_tdt-FitsBoth [] s f = f
  run_tdt-FitsBoth (e ∷ es) s f =
      Holds-bind FitsBoth FitsBoth (handle_tdt kv e s) (run_tdt kv es) (handle_tdt-FitsBoth e s f)
        (λ s' f'. run_tdt-FitsBoth es s' f')

  -- From the start of the program, and after any keys and clicks, of which a key goes to both trackers:
  -- each mask is in use unless the area or the line of its tracker is being marked, running_state_ of
  -- the teacher's is 1 exactly in the three states in which its mount is set up, and the student's is
  -- in one of its three states; unless the text of a calibration is too long for its buffer, where
  -- the behaviour is undefined, the handlers end.
  pub run_tdt-modes :
      (cfg cfg' : C) (has_ptz has_ptz' : Bool) (edges : ℤ × ℤ × ℤ) (junk : ℕ) (es : List TdtEvent)
      → Holds FitsBoth (
          run_tdt kv es (record {
            teacher = create kv cfg has_ptz edges;
            student = student_create kv cfg' has_ptz' junk;
          }))
  run_tdt-modes cfg cfg' has_ptz has_ptz' edges junk es =
      run_tdt-FitsBoth es _
        (create-Fits kv cfg has_ptz edges, create-FitsStudent cfg' has_ptz' junk)
