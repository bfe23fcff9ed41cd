-- ===== src/Tests/Tracking.antt =====
-- The theorems on tmp/ at one configuration, one tracker and one room.
use libsimple.Base.{
  ℕ, ◌*◌, ◌≡◌, ◌≢◌, refl, true, false, Bytes, Option, none, some, List, [], ◌∷◌, ◌++◌,
  if◌then◌else◌, arith,
}
use libsimple.Base.Int.{◌-ℤ◌, ◌+ℤ◌, ℤ, pos, negsuc, minus_one}
use libsimple.Clib.Decimal.{decimal, digits_onto}
use libsimple.Clib.Scan.{print_int}
use libsimple.Clib.Text.{codes, bytes_eq, bytes_eq_iff}
use libsimple.Outcome.{done, Holds}
use libsimple.Tracking.Config.{KvConfig}
use libsimple.Tracking.Points.{Point, print_points}
use libsimple.Tracking.Tasks.{Task, move, handle_task}
use libsimple.Tracking.Tracker.{half, State, running, calibrating, calibrating2, Tracker}
use libsimple.Tracking.Keys.{key_calibrating_handle, create, points_at, load_roi}
use libsimple.Tracking.Keys.Save.{
  IsSaved, key_calibrating_handle-IsSaved, key_calibrating_handle-few,
}
use libsimple.Tracking.Tdt.{TdtEvent, pressed, teacher_detect, student_detect, run_tdt}
use libsimple.Tracking.Tdt.Modes.{FitsBoth, run_tdt-modes}
use libsimple.Tracking.Student.{student_create}
use libsimple.Tracking.Mask.{black}
use libsimple.Tracking.Stamps.{
  new_area_duration, set_stamp, set_invalid_stamp, invalid_duration, valid_duration,
  valid_duration_area,
}
use libsimple.Tracking.Stamps.Valid.{Seen, area_after, chk_after, settled, lead, settled-valid}
use libsimple.Tracking.Stamps.Since.{area_after-credited}
use libsimple.Tracking.Areas.{make_areas}
use libsimple.Tracking.Areas.Settle.{settle, Settles, area_changed-Settles}
use libsimple.Tracking.Frames.{TeacherPtz, Policy, DetectedData, set_all}
use libsimple.Tracking.Frames.Lost.{is_lost, is_due, home, set_all-home}
use libsimple.Tracking.Analyze.{
  Detected, Rect, box, is_valid, data_valided, data_range, data_vec, data_first_valid,
  data_last_valid, recent_data, keep_recent, back_stamp,
}
use libsimple.Tracking.Analyze.Range.{Within, HoldsAll, sides_of, data_range-HoldsAll}
use libsimple.Tracking.Analyze.Vector.{way, data_vec-way_between}
use libsimple.Tracking.Views.{View, fullview, closeview, ok, Camera, Limits, Working, abs}
use libsimple.Tracking.Views.Gone.{trytraces, trytraces-closeview}
use libsimple.Tracking.Worker.{Input, camshift, ask, turn}
use libsimple.Tracking.Worker.Spin.{wakes, home_of, repeated, wakes-forever}

-- A configuration as a function.
abbrev Store : Type 0
Store = Bytes → Option Bytes

abbrev set_at : Store → Bytes → Bytes → Store
set_at c k v k' = if bytes_eq k k' then some v else c k'

bytes_eq_same : (k : Bytes) → bytes_eq k k ≡ true
bytes_eq_same k = (bytes_eq_iff k k).1 refl

set_at-other : (c : Store) (k k' v : Bytes) → k ≢ k' → set_at c k v k' ≡ c k'
set_at-other c k k' v n = ground (arith, bytes_eq_iff k k', n)

abbrev store : KvConfig Store
store = record {
  get_value = λ c k. c k;
  set_value = set_at;
  set_int = λ c k n. set_at c k (print_int n);
  save_as = λ c. c;
  get_value-set_value = λ c k v. rw (bytes_eq_same k) refl;
  get_value-other = set_at-other;
  get_value-save_as = λ c k. refl;
}

abbrev empty : Store
empty _ = none

abbrev point : ℕ → ℕ → Point
point x y = record { x = pos x; y = pos y }

abbrev tracker_in : State → List Point → Tracker Store
tracker_in s ps = record {
  state = s;
  calibrations = ps;
  enable_mask = false;
  masked = true;
  img_mask = none;
  cfg = empty;
  running_state = 0;
  reseted = false;
  has_ptz = true;
  edges = (pos 0, pos 0, pos 0);
  calls = [];
  tasks = [];
}

abbrev square : List Point
square = point 10 10 ∷ point 90 10 ∷ point 90 40 ∷ point 10 40 ∷ []

key_calibrating_handle-IsSaved_example :
    (t' : Tracker Store) × (key_calibrating_handle store 13 (tracker_in calibrating2 square)
      ≡ done t')
    × IsSaved store (tracker_in calibrating2 square) t'
unfolding print_points print_int decimal digits_onto
key_calibrating_handle-IsSaved_example =
    key_calibrating_handle-IsSaved store (tracker_in calibrating2 square) refl (omega arith)
      (
        omega arith,
        omega arith,
        (omega arith, omega arith, (omega arith, omega arith, (omega arith, omega arith, tt))),
      )
      (omega arith)

key_calibrating_handle-few_example :
    (t' : Tracker Store) × (key_calibrating_handle store 13
        (tracker_in calibrating (point 1 2 ∷ []))
      ≡ done t')
    × (points_at store t'.cfg (codes "calibration_data") ≡ [])
    × (load_roi store t'.cfg ≡ load_roi store empty)
    × (calibrating ≡ calibrating → true ≡ true → t'.img_mask ≡ some black)
    × (t'.enable_mask ≡ true)
key_calibrating_handle-few_example =
    key_calibrating_handle-few store (tracker_in calibrating (point 1 2 ∷ [])) (omega arith)

abbrev presses : List TdtEvent
presses =
    pressed b'b' false (pos 0, pos 0, pos 0) (pos 0, pos 0, pos 0)
    ∷ teacher_detect (pos 5) (pos 6)
    ∷ pressed b'B' false (pos 0, pos 0, pos 0) (pos 0, pos 0, pos 0)
    ∷ student_detect (pos 7) (pos 8)
    ∷ pressed 13 false (pos 0, pos 0, pos 0) (pos 0, pos 0, pos 0)
    ∷ pressed b'p' false (pos 0, pos 0, pos 0) (pos 0, pos 0, pos 0)
    ∷ []

run_tdt-modes_example : Holds (FitsBoth store) (
    run_tdt store presses (record {
      teacher = create store empty true (pos 0, pos 0, pos 0);
      student = student_create store empty false 7;
    }))
run_tdt-modes_example = run_tdt-modes store empty empty true false (pos 0, pos 0, pos 0) 7 presses

-- A mount with three areas of 20 pixels, from 100 to 160.
abbrev mount : TeacherPtz Store
mount = record {
  tracker = tracker_in running [];
  areas = make_areas (pos 100) (pos 160) 3;
  hori = λ i. pos (100 * i);
  view_v = pos 0;
  view_z = pos 5000;
  last_area = none;
  chker = new_area_duration;
  stable = true;
}

abbrev policy : Policy
policy = record { to_reset_ptz = 5; to_fullview = 1; to_closeview = 2 }

abbrev nobody : ℕ → DetectedData
nobody t = record { valid = false; stamp = t; poss = [] }

abbrev long : List DetectedData
long = nobody 1 ∷ nobody 4 ∷ nobody 9 ∷ nobody 12 ∷ []

set_all-home_example :
    (m' : TeacherPtz Store) × (set_all store policy long mount ≡ done m')
    × (m'.tracker.tasks ≡ (if is_due policy m'.chker then home store empty ∷ [] else []))
unfolding is_lost set_stamp set_invalid_stamp new_area_duration invalid_duration
set_all-home_example = set_all-home store policy long mount refl refl refl refl (ground arith) refl

area_changed-Settles_example :
    Settles (make_areas (pos 100) (pos 160) 3) 59 (settle 3 (make_areas (pos 100) (pos 160) 3) 0 59)
area_changed-Settles_example =
    area_changed-Settles 100 60 3 0 59 (omega arith) (omega arith) (omega arith) (omega arith)

settled-valid_example :
    ((area_after ((true, 3) ∷ (true, 2) ∷ (false, 1) ∷ [])).valid ≡ true)
    × ((chk_after 0 ((true, 3) ∷ (true, 2) ∷ (false, 1) ∷ [])).curr ≡ false)
unfolding settled lead
settled-valid_example = settled-valid 0 ((true, 3) ∷ (true, 2) ∷ (false, 1) ∷ [])

abbrev seen_twice : Seen
seen_twice =
    (true, 109) ∷ (true, 107) ∷ (false, 106) ∷ (true, 105) ∷ (false, 102) ∷ (true, 101) ∷ []

area_after-credited_example :
    ((area_after seen_twice).valid ≡ true)
    × (valid_duration (area_after seen_twice) ≡ pos 6)
    × (valid_duration_area (area_after seen_twice) ≡ pos 6)
unfolding ◌+ℤ◌
area_after-credited_example =
    area_after-credited ((false, 106) ∷ (true, 105) ∷ (false, 102) ∷ (true, 101) ∷ []) 107 109
      (refl, (refl, (refl, (refl, (refl, tt)))))

abbrev at_place : ℕ → ℤ → ℕ → Detected
at_place t x y = record { stamp = t; pt = record { x = x; y = pos y } }

-- Somebody walks to the left, and is not seen once.
abbrev walk : List Detected
walk =
    at_place 1 (pos 300) 50
    ∷ at_place 2 minus_one 0
    ∷ at_place 3 (pos 200) 60
    ∷ at_place 4 (pos 100) 55
    ∷ []

data_range-HoldsAll_example :
    (Within (sides_of (data_range (pos 0, pos 0, pos 0) walk).0) (box (point 0 0))
      → HoldsAll (box (point 0 0)) walk)
    × (HoldsAll (box (point 0 0)) walk
        → Within (sides_of (data_range (pos 0, pos 0, pos 0) walk).0) (box (point 0 0)))
unfolding data_valided is_valid
data_range-HoldsAll_example =
    data_range-HoldsAll (pos 0, pos 0, pos 0) walk (box (point 0 0)) (omega arith)

data_vec-way_between_example : data_vec walk ≡ (negsuc 199, pos 5)
unfolding data_first_valid data_last_valid is_valid way ◌-ℤ◌
data_vec-way_between_example = data_vec-way_between walk

abbrev camera : Camera
camera = record { point_cov = λ p. (p.x, p.y); det2tra = λ at rc p. (rc, p) }

abbrev limits : Limits
limits = record { second = 1; analyze_interval = 3; to_stop_tracing = 2 }

abbrev nowhere : Rect
nowhere = record { x = pos 0; y = pos 0; width = pos 0; height = pos 0 }

abbrev room : View → List Detected → List Task → Working Store
room v ds ts = record {
  cfg = empty;
  view = v;
  info = record {
    result = ok;
    rc_detect = nowhere;
    rc_trace = nowhere;
    pt_detect_last = point 0 0;
    pt_trace_last = point 0 0;
    valid_duration = pos 0;
    hvec = pos 0;
    vvec = pos 0;
    to = (pos 0, pos 0);
    next_state = v;
  };
  tracing = record {
    max_speed = pos 10;
    min_speed = pos 1;
    speed = pos 2;
    is_middle = true;
    distance = minus_one;
  };
  has_ptz = true;
  running_state = 0;
  stable = (pos 500, pos 300);
  trace_last_pos = point 0 0;
  test_last_dir = minus_one;
  detected = ds;
  calls = [];
  tasks = ts;
  posts = 1;
}

-- somebody who comes back to the same place
abbrev standing : List Detected
standing = at_place 1 (pos 12) 10 ∷ at_place 3 (pos 16) 10 ∷ at_place 5 (pos 12) 10 ∷ []

-- the mount gets there between the two calls
abbrev arrival : List ((ℤ × ℤ) × ℕ × List Detected)
arrival = ((pos 0, pos 0), 5, standing) ∷ ((pos 11, pos 10), 6, standing) ∷ []

trytraces-closeview_example :
    (w : Working Store) × (trytraces store camera limits
        (((pos 0, pos 0), 7, walk) ∷ ((pos 0, pos 0), 900, walk) ∷ [])
        (room closeview [] [])
      ≡ done w)
    × (w.view ≡ closeview)
    × (w.calls ≡ [])
    × (w.tasks ≡ [])
unfolding recent_data keep_recent back_stamp data_last_valid is_valid half abs
trytraces-closeview_example =
    trytraces-closeview store camera limits
      (((pos 0, pos 0), 7, walk) ∷ ((pos 0, pos 0), 900, walk) ∷ []) (room closeview [] []) refl
      refl (refl, (refl, tt))

wakes-forever_example :
    (w : Working Store) × (wakes store camera limits
        (((pos 0, pos 0), 7) ∷ ((pos 0, pos 0), 8) ∷ [])
        (room fullview walk [])
      ≡ done w)
    × (w.posts ≡ 1)
    × (w.calls ≡ handle_task (home_of store empty) ++ (handle_task (home_of store empty) ++ []))
unfolding recent_data keep_recent back_stamp data_last_valid is_valid repeated
wakes-forever_example =
    wakes-forever store camera limits (((pos 0, pos 0), 7) ∷ ((pos 0, pos 0), 8) ∷ []) 0
      (room fullview walk []) refl refl refl refl refl (refl, (refl, tt))

abbrev happens : List Input
happens = ask (move 1 1 250) ∷ camshift 10 (at_place 5 (pos 80) 50) ∷ turn (pos 0, pos 0) 5 ∷ []
