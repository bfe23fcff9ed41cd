-- ===== src/Tracking/Stamps.antt =====
-- The small state machines that smooth what is seen in an image over time: AreaDuration and
-- ChkValidData of tmp/TeacherPtz.h, and tmp/StateDuration.h. A time is a natural number of some unit,
-- where the code has seconds in a `double`; a duration is an integer, since the clock may go back.
pub mod Valid
pub mod Since
use libsimple.Base.{
  ℕ, zero, suc, ◌+◌, ◌-◌, Bool, true, false, not, ◌||◌, Option, none, some, List, [], ◌∷◌, ltb, leb,
  ◌==◌, if◌then◌else◌,
}
use libsimple.Base.Int.{ℤ, pos, sub_ℕ, ◌+ℤ◌}

abbrev pub eq_bool : Bool → Bool → Bool
eq_bool true b = b
eq_bool false b = not b

-- class AreaDuration; `last` is `none` while last_ is -1.
pub record AreaDuration : Type 0 where
  pub area : Option ℕ
  pub duration_valid : ℤ
  pub duration_invalid : ℤ
  pub duration_valid_area : ℤ
  pub last : Option ℕ
  pub contious_cnt : ℕ
  pub valid : Bool

-- the constructor
unfoldable pub new_area_duration : AreaDuration
new_area_duration = record {
  area = none;
  duration_valid = pos 0;
  duration_invalid = pos 0;
  duration_valid_area = pos 0;
  last = none;
  contious_cnt = 2;
  valid = false;
}

-- `area_ != id`
abbrev pub is_other : Option ℕ → ℕ → Bool
is_other none id = true
is_other (some a) id = not (a == id)

-- set_area
unfoldable pub set_area : ℕ → AreaDuration → AreaDuration
set_area id a = record a {
  area = some id;
  duration_valid_area = if is_other a.area id then pos 0 else a.duration_valid_area;
}

-- `stamp - last_`, where `last_ > 0.0`
abbrev pub since : Option ℕ → ℕ → ℤ
since none stamp = pos 0
since (some last) stamp = if ltb 0 last then sub_ℕ stamp last else pos 0

-- set_valid_stamp
unfoldable pub set_valid_stamp : ℕ → AreaDuration → AreaDuration
set_valid_stamp stamp a =
    let a1 = record a {
      duration_valid = a.duration_valid +ℤ since a.last stamp;
      duration_valid_area = a.duration_valid_area +ℤ since a.last stamp;
      last = some stamp;
    } in
    if a.valid
    then record a1 { contious_cnt = 2 }
    else if a.contious_cnt == 1
    then record a1 { contious_cnt = 2; valid = true; duration_invalid = pos 0 }
    else record a1 { contious_cnt = a.contious_cnt - 1 }

-- set_invalid_stamp
unfoldable pub set_invalid_stamp : ℕ → AreaDuration → AreaDuration
set_invalid_stamp stamp a =
    let a1 = record a {
      duration_invalid = a.duration_invalid +ℤ since a.last stamp;
      last = some stamp;
    } in
    if a.valid
    then (if a.contious_cnt == 1
        then record a1 {
          contious_cnt = 2;
          valid = false;
          duration_valid_area = pos 0;
          duration_valid = pos 0;
        }
        else record a1 { contious_cnt = a.contious_cnt - 1 })
    else record a1 { contious_cnt = 2 }

-- valid_duration, valid_duration_area and invalid_duration
unfoldable pub valid_duration : AreaDuration → ℤ
valid_duration a = if a.valid then a.duration_valid else pos 0

unfoldable pub valid_duration_area : AreaDuration → ℤ
valid_duration_area a = if a.valid then a.duration_valid_area else pos 0

unfoldable pub invalid_duration : AreaDuration → ℤ
invalid_duration a = if a.valid then pos 0 else a.duration_invalid

-- the stamp of an image, with whether something has been found in it
unfoldable pub set_stamp : Bool → ℕ → AreaDuration → AreaDuration
unfolding set_valid_stamp set_invalid_stamp
set_stamp true stamp a = set_valid_stamp stamp a
set_stamp false stamp a = set_invalid_stamp stamp a

-- struct ChkValidData
pub record ChkValidData : Type 0 where
  pub last_valid : Bool
  pub curr : Bool
  pub contious_cnt : ℕ
  pub changed_stamp : ℕ

unfoldable pub new_chk_valid_data : ℕ → ChkValidData
new_chk_valid_data now = record {
  last_valid = false;
  curr = false;
  contious_cnt = 5;
  changed_stamp = now;
}

-- ChkValidData::update; it returns the new `curr`.
unfoldable pub update_valid : Bool → ℕ → ChkValidData → ChkValidData
update_valid d stamp c =
    if eq_bool d c.last_valid
    then (if eq_bool d c.curr
        then c
        else if leb c.contious_cnt 1
        then record c { contious_cnt = 5; curr = d; changed_stamp = stamp }
        else record c { contious_cnt = c.contious_cnt - 1 })
    else record c { last_valid = d; contious_cnt = 5 }

-- class StateDuration; the state is `junk` until it is set.
pub record StateDuration : Type 0 where
  pub state : ℕ
  pub stamp : Option ℕ

unfoldable pub new_state_duration : ℕ → StateDuration
new_state_duration junk = record { state = junk; stamp = none }

abbrev pub is_changed : ℕ → StateDuration → Bool
is_changed s d = elim d.stamp [ none ↦ true | some stamp ↦ not (s == d.state) ]

-- set_state
unfoldable pub set_state : ℕ → ℕ → StateDuration → StateDuration
set_state now s d = if is_changed s d then record { state = s; stamp = some now } else d
