-- ===== src/Tracking/Areas.antt =====
-- Which part of the room the teacher is in: load_calibration_edge, the constructor,
-- calc_calibration_area, area_changed and get_area_from_data of tmp/TeacherPtz.cpp. Positions are
-- whole pixels; which way the mount is turned for a part is not modelled.
pub mod Settle
use libsimple.Base.{
  ℕ, zero, suc, ◌+◌, ◌*◌, ◌-◌, ◌/◌, min, Bool, true, false, not, ◌&&◌, Option, none, some, List, [],
  ◌∷◌, ltb, ◌==◌, if◌then◌else◌,
}
use libsimple.Base.Int.{ℤ, pos, negsuc, ◌+ℤ◌, ◌-ℤ◌, ltb_ℤ, sub_ℕ}
use libsimple.Outcome.{Outcome, done, fault}
use libsimple.Tracking.Points.{Point}
use libsimple.Tracking.Tracker.{half}

-- load_calibration_edge: both edges, over the points of the two lines
unfoldable pub load_edges : ℤ × ℤ → List Point → ℤ × ℤ
load_edges (left, right) [] = (left, right)
load_edges (left, right) (p ∷ ps) =
    load_edges (if ltb_ℤ p.x left then p.x else left, if ltb_ℤ right p.x then p.x else right) ps

-- What the constructor works out; `right_edge` is calibration_right_edge_, or 0 below that.
pub record Areas : Type 0 where
  pub left : ℤ
  pub right : ℤ
  pub areas : ℕ
  pub area_length : ℕ
  pub overlap : ℕ

abbrev pub nat_part : ℤ → ℕ
nat_part (pos n) = n
nat_part (negsuc n) = 0

-- of a number of areas that is not negative; the edges are in order
unfoldable pub make_areas : ℤ → ℤ → ℕ → Areas
make_areas left right teacher_area =
    let areas = if teacher_area == 0 then 3 else teacher_area in
    let len = nat_part (right -ℤ left) / areas in
    record { left = left; right = right; areas = areas; area_length = len; overlap = len / 4 }

-- segments_[i], with its ends held to 0 and to the right edge
unfoldable pub segment_left : Areas → ℕ → ℕ
segment_left a i = i * a.area_length - a.overlap

unfoldable pub segment_right : Areas → ℕ → ℤ
segment_right a i =
    let right = pos ((i + 1) * a.area_length + a.overlap) in
    if ltb_ℤ a.right right then a.right else right

-- area_changed: the index and whether it has changed; `last` is last_area_index_, `none` for -1. A
-- failed assertion, a division by zero and an index out of range are undefined behaviour.
unfoldable pub area_changed : Areas → Option ℕ → ℕ → Outcome (ℕ × Bool)
area_changed a none offset =
    let index = offset / a.area_length in
    if a.area_length == 0 then fault else if ltb index a.areas then done (index, true) else fault
area_changed a (some last) offset =
    if not (ltb last a.areas)
    then fault
    else if ltb offset (segment_left a last)
    then done (last - 1, true)
    else if ltb_ℤ (segment_right a last) (pos offset)
    then done (last + 1, true)
    else done (last, false)

-- get_area_from_data, for a target from `l` to `r`
unfoldable pub get_area_from_data : Areas → Option ℕ → ℤ → ℤ → Outcome (ℕ × Bool)
unfolding area_changed half
get_area_from_data a last l r =
    if ltb_ℤ l a.left
    then fault
    else if ltb_ℤ a.right r
    then fault
    else if not (ltb_ℤ l r)
    then fault
    else elim (half (l +ℤ r) -ℤ a.left) [
      | pos offset ↦ area_changed a last offset
      | negsuc n ↦ fault
    ]
