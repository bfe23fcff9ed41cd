-- ===== src/Tracking/Stamps/Since.antt =====
-- How long a state lasts: tmp/StateDuration.h, and the durations of AreaDuration in tmp/TeacherPtz.h.
use libsimple.Base.{
  ℕ, ◌≡◌, refl, ap, ◌∙◌, Bool, true, false, ◌&&◌, Option, none, some, List, [], ◌∷◌, ◌==◌,
  if◌then◌else◌, arith,
}
use libsimple.Base.Int.{ℤ, pos, ◌+ℤ◌}
use libsimple.Tracking.Stamps.{
  AreaDuration, new_area_duration, since, set_stamp, set_valid_stamp, set_invalid_stamp,
  valid_duration, valid_duration_area, StateDuration, new_state_duration, set_state,
}
use libsimple.Tracking.Stamps.Valid.{Seen, area_after}

-- the calls of set_state, the newest first, by their times and states
unfoldable pub state_after : ℕ → List (ℕ × ℕ) → StateDuration
unfolding set_state new_state_duration
state_after junk [] = new_state_duration junk
state_after junk ((t, s) ∷ calls) = set_state t s (state_after junk calls)

-- The time of the first of the newest calls that have all set the same state.
unfoldable pub run_start : ℕ → ℕ → List (ℕ × ℕ) → ℕ
run_start t s [] = t
run_start t s ((t', s') ∷ calls) =
    let earlier = run_start t' s' calls in if s == s' then earlier else t

set_state_again :
    (t s u s' : ℕ)
    → set_state t s (record { state = s'; stamp = some u })
      ≡ record { state = s; stamp = some (if s == s' then u else t) }
unfolding set_state
set_state_again t s u s' = ground arith

-- After any calls of `set_state` the state is the one that was set last, and the stamp is the time of
-- the call since which no other one has been set, whatever `state_` held at first.
pub state_after-run_start :
    (junk t s : ℕ) (calls : List (ℕ × ℕ))
    → state_after junk ((t, s) ∷ calls) ≡ record { state = s; stamp = some (run_start t s calls) }
unfolding state_after set_state new_state_duration run_start
state_after-run_start junk t s [] = refl
state_after-run_start junk t s ((t', s') ∷ calls) =
    ap (set_state t s) (state_after-run_start junk t' s' calls)
    ∙ set_state_again t s (run_start t' s' calls) s'

-- the time of the newest image, and whether something has been found in it
abbrev pub last_of : Seen → Option ℕ
last_of [] = none
last_of ((v, t) ∷ fs) = some t

abbrev pub found_last : Seen → Bool
found_last [] = false
found_last ((v, t) ∷ fs) = v

-- For each image with something, the time since the image before it (nothing for the first image, or
-- behind one at the time 0).
abbrev pub credited : Seen → ℤ
credited [] = pos 0
credited ((true, t) ∷ fs) = credited fs +ℤ since (last_of fs) t
credited ((false, t) ∷ fs) = credited fs

-- Something has never been found in two images one after the other.
abbrev pub NeverTwice : Seen → Type 0
NeverTwice [] = Unit
NeverTwice ((v, t) ∷ fs) = (v && found_last fs ≡ false) × NeverTwice fs

-- where the checker stands after such images
record Awaits (fs : Seen) (a : AreaDuration) : Type 0 where
  not_valid : a.valid ≡ false
  counter : a.contious_cnt ≡ (if found_last fs then 1 else 2)
  last_is : a.last ≡ last_of fs
  sum_is : a.duration_valid ≡ credited fs
  sum_area : a.duration_valid_area ≡ credited fs

something-Awaits :
    (t : ℕ) (fs : Seen) (a : AreaDuration)
    → found_last fs ≡ false
    → Awaits fs a
    → Awaits ((true, t) ∷ fs) (set_valid_stamp t a)
unfolding set_valid_stamp
something-Awaits t fs a before v =
    let two : a.contious_cnt ≡ 2 = ground (arith, before, v.counter) in
    rw (v.not_valid, two)
      (record {
        not_valid = refl;
        counter = refl;
        last_is = refl;
        sum_is = rw (v.sum_is, v.last_is) refl;
        sum_area = rw (v.sum_area, v.last_is) refl;
      })

nothing-Awaits :
    (t : ℕ) (fs : Seen) (a : AreaDuration)
    → Awaits fs a
    → Awaits ((false, t) ∷ fs) (set_invalid_stamp t a)
unfolding set_invalid_stamp
nothing-Awaits t fs a v = rw v.not_valid (record {
  not_valid = refl;
  counter = refl;
  last_is = refl;
  sum_is = v.sum_is;
  sum_area = v.sum_area;
})

area_after-Awaits : (fs : Seen) → NeverTwice fs → Awaits fs (area_after fs)
unfolding area_after new_area_duration set_stamp
area_after-Awaits [] h = record {
  not_valid = refl;
  counter = refl;
  last_is = refl;
  sum_is = refl;
  sum_area = refl;
}
area_after-Awaits ((true, t) ∷ fs) h =
    something-Awaits t fs (area_after fs) h.0 (area_after-Awaits fs h.1)
area_after-Awaits ((false, t) ∷ fs) h =
    nothing-Awaits t fs (area_after fs) (area_after-Awaits fs h.1)

second-valid :
    (t : ℕ) (fs : Seen) (a : AreaDuration)
    → found_last fs ≡ true
    → Awaits fs a
    → let a' = set_valid_stamp t a in
      (a'.valid ≡ true)
      × (valid_duration a' ≡ credited ((true, t) ∷ fs))
      × (valid_duration_area a' ≡ credited ((true, t) ∷ fs))
unfolding set_valid_stamp valid_duration valid_duration_area
second-valid t fs a before v =
    let one : a.contious_cnt ≡ 1 = ground (arith, before, v.counter) in
    rw (v.not_valid, one) (refl, rw (v.sum_is, v.last_is) refl, rw (v.sum_area, v.last_is) refl)

-- Where something has never been found in two images one after the other, and then is: AreaDuration
-- is valid, and says that it has been so, in this area too, for as long as the sum, over all images
-- ever that something was found in, of the time since the image before each (where that image is not
-- at the time 0), however often it was lost in between.
pub area_after-credited :
    (fs : Seen) (t t' : ℕ)
    → NeverTwice ((true, t) ∷ fs)
    → let seen = (true, t') ∷ (true, t) ∷ fs in
      ((area_after seen).valid ≡ true)
      × (valid_duration (area_after seen) ≡ credited seen)
      × (valid_duration_area (area_after seen) ≡ credited seen)
unfolding area_after set_stamp
area_after-credited fs t t' h =
    second-valid t' ((true, t) ∷ fs) (area_after ((true, t) ∷ fs)) refl
      (area_after-Awaits ((true, t) ∷ fs) h)
