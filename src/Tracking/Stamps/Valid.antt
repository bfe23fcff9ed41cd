-- ===== src/Tracking/Stamps/Valid.antt =====
-- When AreaDuration and ChkValidData of tmp/TeacherPtz.h change their minds.
use libsimple.Base.{
  ℕ, suc, ◌+◌, ◌≡◌, refl, Bool, true, false, List, [], ◌∷◌, leb, if◌then◌else◌, arith,
}
use libsimple.Tracking.Stamps.{
  AreaDuration, new_area_duration, set_stamp, ChkValidData, new_chk_valid_data, update_valid,
  eq_bool,
}

-- What has been seen, the newest first: whether there was something, and when.
abbrev pub Seen : Type 0
Seen = List (Bool × ℕ)

-- How many of the newest are `b`.
unfoldable pub lead : Bool → Seen → ℕ
lead b [] = 0
lead b ((c, t) ∷ fs) = let more = lead b fs in if eq_bool b c then suc more else 0

-- The value of the newest image that has at least `k` like it right before it; false without one.
unfoldable pub settled : ℕ → Seen → Bool
unfolding lead
settled k [] = false
settled k ((b, t) ∷ fs) = let before = settled k fs in if leb k (lead b fs) then b else before

unfoldable pub area_after : Seen → AreaDuration
unfolding set_stamp new_area_duration
area_after [] = new_area_duration
area_after ((b, t) ∷ fs) = set_stamp b t (area_after fs)

unfoldable pub chk_after : ℕ → Seen → ChkValidData
unfolding update_valid new_chk_valid_data
chk_after now [] = new_chk_valid_data now
chk_after now ((b, t) ∷ fs) = update_valid b t (chk_after now fs)

-- the counter of AreaDuration after some images
abbrev IsCounted : Seen → Bool → ℕ → Type 0
IsCounted [] valid cnt = (valid ≡ false) × (cnt ≡ 2)
IsCounted ((b, t) ∷ fs) valid cnt = cnt ≡ (if eq_bool b valid then 2 else 1)

abbrev Fits2 : Seen → AreaDuration → Type 0
Fits2 fs a = (a.valid ≡ settled 1 fs) × IsCounted fs a.valid a.contious_cnt

set_stamp-Fits2 :
    (b : Bool) (t : ℕ) (fs : Seen) (a : AreaDuration)
    → Fits2 fs a
    → Fits2 ((b, t) ∷ fs) (set_stamp b t a)
unfolding set_stamp settled lead
set_stamp-Fits2 true t [] a (e, c) = ground (arith, e, c)
set_stamp-Fits2 false t [] a (e, c) = ground (arith, e, c)
set_stamp-Fits2 true t ((true, t') ∷ fs) a (e, c) = ground (arith, e, c)
set_stamp-Fits2 true t ((false, t') ∷ fs) a (e, c) = ground (arith, e, c)
set_stamp-Fits2 false t ((true, t') ∷ fs) a (e, c) = ground (arith, e, c)
set_stamp-Fits2 false t ((false, t') ∷ fs) a (e, c) = ground (arith, e, c)

area_after-Fits2 : (fs : Seen) → Fits2 fs (area_after fs)
unfolding area_after settled new_area_duration
area_after-Fits2 [] = (refl, (refl, refl))
area_after-Fits2 ((b, t) ∷ fs) = set_stamp-Fits2 b t fs (area_after fs) (area_after-Fits2 fs)

-- the counter of ChkValidData, while the newest images are other than what it says
abbrev Fits6 : Seen → ChkValidData → Type 0
Fits6 [] c = (c.last_valid ≡ false) × (c.curr ≡ false) × (c.contious_cnt ≡ 5)
Fits6 ((b, t) ∷ fs) c =
    (c.last_valid ≡ b)
    × (c.curr ≡ settled 5 ((b, t) ∷ fs))
    × ((if eq_bool b c.curr then 5 else c.contious_cnt + lead b fs) ≡ 5)

update_valid-Fits6 :
    (b : Bool) (t : ℕ) (fs : Seen) (c : ChkValidData)
    → Fits6 fs c
    → Fits6 ((b, t) ∷ fs) (update_valid b t c)
unfolding update_valid settled lead
update_valid-Fits6 true t [] c (l, e, k) = ground (arith, l, e, k)
update_valid-Fits6 false t [] c (l, e, k) = ground (arith, l, e, k)
update_valid-Fits6 true t ((true, t') ∷ fs) c (l, e, k) = ground (arith, l, e, k)
update_valid-Fits6 true t ((false, t') ∷ fs) c (l, e, k) = ground (arith, l, e, k)
update_valid-Fits6 false t ((true, t') ∷ fs) c (l, e, k) = ground (arith, l, e, k)
update_valid-Fits6 false t ((false, t') ∷ fs) c (l, e, k) = ground (arith, l, e, k)

chk_after-Fits6 : (now : ℕ) (fs : Seen) → Fits6 fs (chk_after now fs)
unfolding chk_after new_chk_valid_data
chk_after-Fits6 now [] = (refl, refl, refl)
chk_after-Fits6 now ((b, t) ∷ fs) =
    update_valid-Fits6 b t fs (chk_after now fs) (chk_after-Fits6 now fs)

settled-of : (now : ℕ) (fs : Seen) (c : ChkValidData) → Fits6 fs c → c.curr ≡ settled 5 fs
unfolding settled
settled-of now [] c h = h.1
settled-of now ((b, t) ∷ fs) c h = h.1

-- After any images, AreaDuration is valid as the latest image says that was like the one before it,
-- and ChkValidData as the latest image says that was like the five before it; where there is no
-- such image they are not valid.
pub settled-valid :
    (now : ℕ) (fs : Seen)
    → ((area_after fs).valid ≡ settled 1 fs) × ((chk_after now fs).curr ≡ settled 5 fs)
settled-valid now fs =
    ((area_after-Fits2 fs).0, settled-of now fs (chk_after now fs) (chk_after-Fits6 now fs))
