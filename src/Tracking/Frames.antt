-- ===== src/Tracking/Frames.antt =====
-- How the mount follows the teacher: set_detected_data of tmp/TeacherPtz.cpp without smooth tracing,
-- with tmp/TracePolicy.cpp and the switching of the pictures in tmp/TeacherRunning.cpp. A time is a
-- natural number of some unit.
pub mod Lost
use libsimple.Base.{
  ℕ, Bool, true, false, not, ◌&&◌, Option, none, some, List, [], ◌∷◌, ltb, ◌==◌, if◌then◌else◌,
}
use libsimple.Base.Int.{ℤ, pos, ltb_ℤ}
use libsimple.Outcome.{Outcome, done, fault, ◌>>=◌}
use libsimple.Tracking.Areas.{Areas, get_area_from_data}
use libsimple.Tracking.Config.{KvConfig}
use libsimple.Tracking.Stamps.{
  AreaDuration, set_stamp, set_area, valid_duration_area, invalid_duration,
}
use libsimple.Tracking.Tasks.{Task, reset}
use libsimple.Tracking.Tracker.{Tracker, add_task, reset_ptz}

-- What the policy answers.
pub record Policy : Type 0 where
  pub to_reset_ptz : ℕ
  pub to_fullview : ℕ
  pub to_closeview : ℕ

-- DetectedData: the left and right ends of what has been found
pub record DetectedData : Type 0 where
  pub valid : Bool
  pub stamp : ℕ
  pub poss : List (ℤ × ℤ)

-- The members of TeacherPtz beside those of Tracker; `hori` is area_hori_, which the angles of the
-- mount decide, and `view_z` is ptz_z_.
pub record TeacherPtz (C : Type 0) : Type 0 where
  pub tracker : Tracker C
  pub areas : Areas
  pub hori : ℕ → ℤ
  pub view_v : ℤ
  pub view_z : ℤ
  pub last_area : Option ℕ
  pub chker : AreaDuration
  pub stable : Bool

module _ {C : Type 0} where
  -- task_ptz_set_position, which is task_ptz_reset, to an area
  unfoldable pub turn_to : ℕ → TeacherPtz C → TeacherPtz C
  unfolding add_task
  turn_to index m = record m {
    tracker = add_task (reset (m.hori index) m.view_v m.view_z) m.tracker;
  }

  -- the part of set_detected_data after get_area_from_data
  unfoldable pub in_area : Policy → ℕ → Bool → TeacherPtz C → TeacherPtz C
  unfolding set_area valid_duration_area turn_to
  in_area pol index changed m =
      let chker = set_area index m.chker in
      let m1 = record m {
        last_area = some index;
        chker = chker;
        stable = ltb_ℤ (pos pol.to_closeview) (valid_duration_area chker);
      } in
      if changed then turn_to index m1 else m1

  abbrev pub set_reseted : Bool → TeacherPtz C → TeacherPtz C
  set_reseted b m = record m { tracker = record m.tracker { reseted = b } }

  -- A target is seen and the checker is valid; area_hori_ is read for a mount that is there.
  unfoldable pub follow : Policy → List (ℤ × ℤ) → TeacherPtz C → Outcome (TeacherPtz C)
  unfolding in_area get_area_from_data
  follow pol [] m = fault
  follow pol ((l, r) ∷ _) m = get_area_from_data m.areas m.last_area l r >>= λ (index, changed).
      if changed && m.tracker.has_ptz && not (ltb index m.areas.areas)
      then fault
      else done (in_area pol index changed m)

module _ {C : Type 0} (kv : KvConfig C) where
  -- reset_ptz, with the area forgotten
  unfoldable pub go_home : TeacherPtz C → TeacherPtz C
  unfolding reset_ptz
  go_home m =
      let m1 = set_reseted true m in
      record m1 { tracker = reset_ptz kv m1.tracker; last_area = none }

  -- the checker is not valid
  unfoldable pub lose : Policy → TeacherPtz C → TeacherPtz C
  unfolding go_home invalid_duration
  lose pol m =
      let lost = invalid_duration m.chker in
      let m1 = record m { stable = if ltb_ℤ (pos pol.to_fullview) lost then false else m.stable } in
      let m2 = record m1 { stable = false } in
      if not (ltb_ℤ (pos pol.to_reset_ptz) lost)
      then m1
      else if (m.tracker.running_state == 0) && not m.tracker.reseted
      then go_home m2
      else m2

  -- TeacherPtz::set_detected_data
  unfoldable pub set_detected_data : Policy → DetectedData → TeacherPtz C → Outcome (TeacherPtz C)
  unfolding set_stamp follow lose
  set_detected_data pol d m =
      let m1 = record m { chker = set_stamp d.valid d.stamp m.chker } in
      if not m1.chker.valid
      then done (lose pol m1)
      else if d.valid
      then follow pol d.poss (set_reseted false m1)
      else done (set_reseted false m1)

  -- one image after the other
  unfoldable pub set_all : Policy → List DetectedData → TeacherPtz C → Outcome (TeacherPtz C)
  unfolding set_detected_data
  set_all pol [] m = done m
  set_all pol (d ∷ ds) m = set_detected_data pol d m >>= set_all pol ds

-- The switch at the end of TeacherRunning::one_image: whether the camera is closed in
unfoldable pub switcher : Bool → Bool → Bool
switcher false stable = if stable then true else false
switcher true stable = if not stable then false else true
