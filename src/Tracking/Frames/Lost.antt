-- ===== src/Tracking/Frames/Lost.antt =====
-- What TeacherPtz does while there is nobody to follow.
use libsimple.Base.{
  ℕ, ◌+◌, ◌-◌, ◌≤◌, leb, Option, none, some, ap, ◌≡◌, refl, sym, ◌∙◌, subst, Bool, true, false, not,
  ◌&&◌, List, [], ◌∷◌, ◌++◌, ltb, ◌==◌, if◌then◌else◌, Bool-cases, inl, inr, arith,
}
use libsimple.Base.Int.{ℤ, pos, negsuc, ltb_ℤ, ◌+ℤ◌, sub_ℕ-parts}
use libsimple.Outcome.{done}
use libsimple.Clib.Text.{codes}
use libsimple.Tracking.Config.{KvConfig}
use libsimple.Tracking.Stamps.{
  AreaDuration, since, set_stamp, set_valid_stamp, set_invalid_stamp, invalid_duration,
}
use libsimple.Tracking.Tasks.{Task, task_ptz, reset}
use libsimple.Tracking.Tracker.{Tracker, add_task, reset_ptz, int_value}
use libsimple.Tracking.Frames.{
  Policy, DetectedData, TeacherPtz, go_home, lose, set_detected_data, set_all,
}

-- Whether the checker is not valid after each of the images.
unfoldable pub is_lost : AreaDuration → List DetectedData → Bool
unfolding set_stamp
is_lost a [] = true
is_lost a (d ∷ ds) = let a' = set_stamp d.valid d.stamp a in not a'.valid && is_lost a' ds

-- Whether the time without a target is over the limit.
abbrev pub is_due : Policy → AreaDuration → Bool
is_due pol a = ltb_ℤ (pos pol.to_reset_ptz) (invalid_duration a)

-- The stamps of the images do not go back, from the last one that the checker has seen.
abbrev pub InOrder : Option ℕ → List DetectedData → Type 0
InOrder last [] = Unit
InOrder none (d ∷ ds) = InOrder (some d.stamp) ds
InOrder (some t) (d ∷ ds) = (t ≤ d.stamp) × InOrder (some d.stamp) ds

abbrev Follows : Option ℕ → ℕ → Type 0
Follows none stamp = Unit
Follows (some t) stamp = t ≤ stamp

InOrder-Follows :
    (last : Option ℕ) (d : DetectedData) (ds : List DetectedData)
    → InOrder last (d ∷ ds)
    → Follows last d.stamp × InOrder (some d.stamp) ds
InOrder-Follows none d ds h = (tt, h)
InOrder-Follows (some t) d ds h = h

set_stamp-last : (v : Bool) (t : ℕ) (a : AreaDuration) → (set_stamp v t a).last ≡ some t
unfolding set_stamp set_valid_stamp set_invalid_stamp
set_stamp-last true t a = ground arith
set_stamp-last false t a = ground arith

-- such a stamp adds no negative time
since-Follows : (last : Option ℕ) (t : ℕ) → Follows last t → (k : ℕ) × (since last t ≡ pos k)
since-Follows none t h = (0, refl)
since-Follows (some l) t h = elim (Bool-cases (ltb 0 l)) [
  | inl counted ↦ let le : leb l t ≡ true = ground (arith, h) in (t - l, rw (counted, le))
  | inr zero_l ↦ (0, rw zero_l)
]

-- over a limit, and more
over-add :
    (limit k : ℕ) (lost : ℤ)
    → ltb_ℤ (pos limit) lost ≡ true
    → ltb_ℤ (pos limit) (lost +ℤ pos k) ≡ true
unfolding ◌+ℤ◌
over-add limit k (negsuc n) h = absurd (ground arith)
over-add limit k (pos n) h = let (p, q) = sub_ℕ-parts (n + k) (0 + 0) in ground (arith, p, q)

is_due-not_valid :
    (pol : Policy) (a : AreaDuration)
    → is_due pol a ≡ true
    → (a.valid ≡ false) × (ltb_ℤ (pos pol.to_reset_ptz) a.duration_invalid ≡ true)
unfolding invalid_duration
is_due-not_valid pol a h = elim (Bool-cases a.valid) [
  | inl valid ↦ absurd (ground (arith, valid, h))
  | inr not_valid ↦ (not_valid, rw not_valid at h)
]

-- once over it, it stays so while the checker is not valid
is_due-set_stamp :
    (pol : Policy) (d : DetectedData) (a : AreaDuration)
    → Follows a.last d.stamp
    → (set_stamp d.valid d.stamp a).valid ≡ false
    → is_due pol a ≡ true
    → is_due pol (set_stamp d.valid d.stamp a) ≡ true
unfolding set_stamp
is_due-set_stamp pol d a follows h due =
    let (not_valid, over) = is_due-not_valid pol a due in
    by_valid d.valid d.stamp not_valid over follows h
  where
    by_valid :
        (v : Bool) (t : ℕ)
        → a.valid ≡ false
        → ltb_ℤ (pos pol.to_reset_ptz) a.duration_invalid ≡ true
        → Follows a.last t
        → (set_stamp v t a).valid ≡ false
        → is_due pol (set_stamp v t a) ≡ true
    by_valid true t not_valid over follows h =
        unfold set_valid_stamp in unfold invalid_duration in (ground (arith, not_valid, over, h))
    by_valid false t not_valid over follows h =
        let (k, e) = since-Follows a.last t follows in
        unfold set_invalid_stamp in
        unfold invalid_duration in
        (rw (not_valid, e) (over-add pol.to_reset_ptz k a.duration_invalid over))

module _ {C : Type 0} (kv : KvConfig C) where
  -- The task that reset_ptz adds.
  unfoldable pub home : C → Task
  unfolding int_value
  home cfg =
      reset (int_value kv cfg (codes "ptz_init_x") (codes "0"))
        (int_value kv cfg (codes "ptz_init_y") (codes "0"))
        (int_value kv cfg (codes "ptz_init_z") (codes "5000"))

  -- A mount that is tracking, and has been sent home since `old` where it is due.
  record IsSent (cfg : C) (old : List Task) (due : Bool) (t : Tracker C) : Type 0 where
    same : t.cfg ≡ cfg
    connected : t.has_ptz ≡ true
    tracking : (t.running_state == 0) ≡ true
    sent : t.reseted ≡ due
    asked : t.tasks ≡ (if due then old ++ (home cfg ∷ []) else old)

  home-IsSent :
      (cfg : C) (old : List Task) (t : Tracker C)
      → IsSent cfg old false t
      → IsSent cfg old true (reset_ptz kv (record t { reseted = true }))
  unfolding reset_ptz add_task task_ptz home
  home-IsSent cfg old t s = rw s.connected (record {
    same = s.same;
    connected = refl;
    tracking = s.tracking;
    sent = refl;
    asked = rw (s.asked, s.same) refl;
  })

  lose-IsSent :
      (pol : Policy) (cfg : C) (old : List Task) (a : AreaDuration) (m : TeacherPtz C)
      → IsSent cfg old (is_due pol m.chker) m.tracker
      → (is_due pol m.chker ≡ true → is_due pol a ≡ true)
      → IsSent cfg old (is_due pol a) (lose kv pol (record m { chker = a })).tracker
  unfolding lose go_home
  lose-IsSent pol cfg old a m s later = elim (Bool-cases (is_due pol a)) [
    | inl now_due ↦ elim (Bool-cases (is_due pol m.chker)) [
      | inl was ↦
          let s' = subst (λ b. IsSent cfg old b m.tracker) was s in
          simp (now_due, s'.sent, s'.tracking) s'
      | inr was_not ↦
          let s' = subst (λ b. IsSent cfg old b m.tracker) was_not s in
          simp (now_due, s'.sent, s'.tracking) (home-IsSent cfg old m.tracker s')
    ]
    | inr not_due ↦ elim (Bool-cases (is_due pol m.chker)) [
      | inl was ↦ ground (arith, later was, not_due)
      | inr was_not ↦ simp not_due (subst (λ b. IsSent cfg old b m.tracker) was_not s)
    ]
  ]

  lost_frame :
      (pol : Policy) (d : DetectedData) (m : TeacherPtz C)
      → (set_stamp d.valid d.stamp m.chker).valid ≡ false
      → set_detected_data kv pol d m
        ≡ done (lose kv pol (record m { chker = set_stamp d.valid d.stamp m.chker }))
  unfolding set_detected_data
  lost_frame pol d m h = rw h refl

  lose-chker : (pol : Policy) (m : TeacherPtz C) → (lose kv pol m).chker ≡ m.chker
  unfolding lose go_home
  lose-chker pol m = ground arith

  -- Where a series of images ends.
  abbrev Lost : Policy → C → List Task → TeacherPtz C → Type 0
  Lost pol cfg old m = IsSent cfg old (is_due pol m.chker) m.tracker

  set_all-Lost :
      (pol : Policy) (cfg : C) (old : List Task) (ds : List DetectedData) (m : TeacherPtz C)
      → Lost pol cfg old m
      → InOrder m.chker.last ds
      → is_lost m.chker ds ≡ true
      → (m' : TeacherPtz C) × (set_all kv pol ds m ≡ done m') × Lost pol cfg old m'
  unfolding set_all is_lost
  set_all-Lost pol cfg old [] m s ordered h = (m, refl, s)
  set_all-Lost pol cfg old (d ∷ ds) m s ordered h =
      let a = set_stamp d.valid d.stamp m.chker in
      let m1 = record m { chker = a } in
      let both : (a.valid ≡ false) × (is_lost a ds ≡ true) = ground (arith, h) in
      let same = lose-chker pol m1 in
      let (now, later) = InOrder-Follows m.chker.last d ds ordered in
      let last : (lose kv pol m1).chker.last ≡ some d.stamp =
        ap (λ (c : AreaDuration). c.last) same ∙ set_stamp-last d.valid d.stamp m.chker in
      let s1 = lose-IsSent pol cfg old a m s (is_due-set_stamp pol d m.chker now both.0) in
      let s2 = subst (λ c. IsSent cfg old (is_due pol c) (lose kv pol m1).tracker) (sym same) s1 in
      rw (lost_frame pol d m both.0) (
        set_all-Lost pol cfg old ds (lose kv pol m1) s2 (subst (λ l. InOrder l ds) (sym last) later)
          (subst (λ c. is_lost c ds ≡ true) (sym same) both.1))

  -- While the checker is not valid after any of the images that come in, whose stamps do not go back
  -- (from the one the checker has seen last), the mount is asked to go home once if the time without a target is over the limit in the end, and never if it is not; for
  -- a mount that is there, is not being set up, has not gone home and is within the limit at first.
  pub set_all-home :
      (pol : Policy) (ds : List DetectedData) (m : TeacherPtz C)
      → m.tracker.has_ptz ≡ true
      → m.tracker.running_state ≡ 0
      → m.tracker.reseted ≡ false
      → is_due pol m.chker ≡ false
      → InOrder m.chker.last ds
      → is_lost m.chker ds ≡ true
      → (m' : TeacherPtz C) × (set_all kv pol ds m ≡ done m')
        × (m'.tracker.tasks ≡ (
            if is_due pol m'.chker
            then m.tracker.tasks ++ (home m.tracker.cfg ∷ [])
            else m.tracker.tasks))
  set_all-home pol ds m there tracking fresh soon ordered lost =
      let s : Lost pol m.tracker.cfg m.tracker.tasks m = record {
        same = refl;
        connected = there;
        tracking = rw tracking refl;
        sent = fresh ∙ sym soon;
        asked = rw soon refl;
      } in
      let (m', run, s') = set_all-Lost pol m.tracker.cfg m.tracker.tasks ds m s ordered lost in
      (m', run, s'.asked)
