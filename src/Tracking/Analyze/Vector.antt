-- ===== src/Tracking/Analyze/Vector.antt =====
-- What data_vec of tmp/TeacherAnalyze.cpp adds up to.
use libsimple.Base.{
  ◌≡◌, refl, ap, subst, sym, ◌∙◌, Option, none, some, List, [], ◌∷◌, Bool-cases, inl, inr,
}
use libsimple.Base.Int.{ℤ, pos, ◌-ℤ◌, chain, no_way}
use libsimple.Tracking.Points.{Point}
use libsimple.Tracking.Analyze.{
  later_or, Detected, is_valid, data_first_valid, data_last_valid, vec_from, data_vec,
}

-- the way from one point to another
unfoldable pub way : Point → Point → ℤ × ℤ
way from to = (to.x -ℤ from.x, to.y -ℤ from.y)

at_rest : (p : Point) → way p p ≡ (pos 0, pos 0)
unfolding way
at_rest p = rw (no_way p.x, no_way p.y) refl

-- the way to the last valid point, or to `before` where there is none
abbrev way_to : Point → Point → Option Detected → ℤ × ℤ
way_to first before none = way first before
way_to first before (some last) = way first last.pt

way_to-later_or :
    (first before : Point) (d : Detected) (later : Option Detected)
    → way_to first before (later_or later (some d)) ≡ way_to first d.pt later
way_to-later_or first before d none = refl
way_to-later_or first before d (some last) = refl

later_or-none : (later : Option Detected) → later_or later none ≡ later
later_or-none none = refl
later_or-none (some last) = refl

vec_from-way :
    (first before : Point) (ds : List Detected)
    → vec_from (some before) (way first before) ds ≡ way_to first before (data_last_valid ds)
unfolding vec_from data_last_valid way
vec_from-way first before [] = refl
vec_from-way first before (d ∷ ds) = elim (Bool-cases (is_valid d)) [
  | inl valid ↦
      let x = chain first.x before.x d.pt.x in
      let y = chain first.y before.y d.pt.y in
      rw (valid, x, y)
        (vec_from-way first d.pt ds ∙ sym (way_to-later_or first before d (data_last_valid ds)))
  | inr not_valid ↦
      rw (not_valid, later_or-none (data_last_valid ds)) (vec_from-way first before ds)
]

-- the way between two points, and no way where there are none
abbrev pub way_between : Option Detected → Option Detected → ℤ × ℤ
way_between none last = (pos 0, pos 0)
way_between (some first) none = (pos 0, pos 0)
way_between (some first) (some last) = way first.pt last.pt

way_between-later_or :
    (d : Detected) (later : Option Detected)
    → way_between (some d) (later_or later (some d)) ≡ way_to d.pt d.pt later
unfolding way
way_between-later_or d none = refl
way_between-later_or d (some last) = refl

-- The vector that data_vec adds up is the way from the first valid point straight to the last one,
-- wherever the points between are; it is zero where no point is valid.
pub data_vec-way_between :
    (ds : List Detected) → data_vec ds ≡ way_between (data_first_valid ds) (data_last_valid ds)
unfolding data_vec vec_from data_first_valid data_last_valid
data_vec-way_between [] = refl
data_vec-way_between (d ∷ ds) = elim (Bool-cases (is_valid d)) [
  | inl valid ↦
      let here : way d.pt d.pt ≡ (pos 0, pos 0) = at_rest d.pt in
      rw (valid, way_between-later_or d (data_last_valid ds))
        (subst (λ hv. vec_from (some d.pt) hv ds ≡ way_to d.pt d.pt (data_last_valid ds)) here
          (vec_from-way d.pt d.pt ds))
  | inr not_valid ↦ rw not_valid (
      data_vec-way_between ds
      ∙ sym (ap (way_between (data_first_valid ds)) (later_or-none (data_last_valid ds))))
]
