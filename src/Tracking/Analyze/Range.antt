-- ===== src/Tracking/Analyze/Range.antt =====
-- What data_range of tmp/TeacherAnalyze.cpp finds.
use libsimple.Base.{
  ◌<◌, ◌⊎◌, ◌≡◌, refl, ap, subst, sym, ◌∙◌, true, false, List, [], ◌∷◌, Bool-cases, inl, inr, arith,
}
use libsimple.Base.Int.{ℤ, pos, minus_one, eq_ℤ, ltb_ℤ, ◌+ℤ◌, ◌≤ℤ◌, there}
use libsimple.Tracking.Points.{Point}
use libsimple.Tracking.Analyze.{
  Detected, is_valid, data_valided, min_ℤ, max_ℤ, Rect, Sides, rect_of, box, stretch, widen,
  range_from, data_range,
}

-- One box is in another; a point is in a box.
abbrev pub Within : Sides → Sides → Type 0
Within s s' = (s'.l ≤ℤ s.l) × (s.r ≤ℤ s'.r) × (s'.t ≤ℤ s.t) × (s.b ≤ℤ s'.b)

abbrev pub HoldsPoint : Sides → Point → Type 0
HoldsPoint s p = Within (box p) s

-- Every valid point is in the box.
abbrev pub HoldsAll : Sides → List Detected → Type 0
HoldsAll s [] = Unit
HoldsAll s (d ∷ ds) = (is_valid d ≡ true → HoldsPoint s d.pt) × HoldsAll s ds

min_ℤ-lower :
    (a b c : ℤ) → (c ≤ℤ min_ℤ a b → (c ≤ℤ a) × (c ≤ℤ b)) × (c ≤ℤ a → c ≤ℤ b → c ≤ℤ min_ℤ a b)
unfolding min_ℤ
min_ℤ-lower a b c = elim (Bool-cases (ltb_ℤ b a)) [
  | inl lt ↦ rw lt (λ h. (ground (arith, lt, h), h), λ h k. k)
  | inr ge ↦ rw ge (λ h. (h, ground (arith, ge, h)), λ h k. h)
]

max_ℤ-upper :
    (a b c : ℤ) → (max_ℤ a b ≤ℤ c → (a ≤ℤ c) × (b ≤ℤ c)) × (a ≤ℤ c → b ≤ℤ c → max_ℤ a b ≤ℤ c)
unfolding max_ℤ
max_ℤ-upper a b c = elim (Bool-cases (ltb_ℤ a b)) [
  | inl lt ↦ rw lt (λ h. (ground (arith, lt, h), h), λ h k. k)
  | inr ge ↦ rw ge (λ h. (h, ground (arith, ge, h)), λ h k. h)
]

stretch-Within :
    (p : Point) (s s' : Sides)
    → (Within (stretch p s) s' → HoldsPoint s' p × Within s s')
      × (HoldsPoint s' p → Within s s' → Within (stretch p s) s')
unfolding stretch
stretch-Within p s s' =
    let l = min_ℤ-lower p.x s.l s'.l in
    let r = max_ℤ-upper p.x s.r s'.r in
    let t = min_ℤ-lower p.y s.t s'.t in
    let b = max_ℤ-upper p.y s.b s'.b in
    (
      λ (hl, hr, ht, hb). (
        ((l.0 hl).0, (r.0 hr).0, (t.0 ht).0, (b.0 hb).0),
        ((l.0 hl).1, (r.0 hr).1, (t.0 ht).1, (b.0 hb).1),
      ),
      λ (pl, pr, pt, pb) (hl, hr, ht, hb). (l.1 pl hl, r.1 pr hr, t.1 pt ht, b.1 pb hb),
    )

-- `l` is not -1 again once a valid point has come
box-started : (d : Detected) → is_valid d ≡ true → eq_ℤ d.pt.x minus_one ≡ false
unfolding is_valid
box-started d h = ground (arith, h)

stretch-started :
    (p : Point) (s : Sides)
    → eq_ℤ p.x minus_one ≡ false
    → eq_ℤ s.l minus_one ≡ false
    → eq_ℤ (stretch p s).l minus_one ≡ false
unfolding stretch min_ℤ
stretch-started p s h k = elim (Bool-cases (ltb_ℤ s.l p.x)) [ inl lt ↦ rw lt k | inr ge ↦ rw ge h ]

range_from-Within :
    (s : Sides) (range : Rect) (ds : List Detected) (s' : Sides)
    → eq_ℤ s.l minus_one ≡ false
    → (Within (range_from (s, range) ds).0 s' → Within s s' × HoldsAll s' ds)
      × (Within s s' → HoldsAll s' ds → Within (range_from (s, range) ds).0 s')
unfolding range_from widen
range_from-Within s range [] s' h = (λ w. (w, tt), λ w u. w)
range_from-Within s range (d ∷ ds) s' h = elim (Bool-cases (is_valid d)) [
  | inl valid ↦
      let next = stretch-started d.pt s (box-started d valid) h in
      let rest = range_from-Within (stretch d.pt s) (rect_of (stretch d.pt s)) ds s' next in
      let here = stretch-Within d.pt s s' in
      rw (valid, h)
        (
          λ w. let (w1, u) = rest.0 w in let (p, w2) = here.0 w1 in (w2, (λ e. p, u)),
          λ w u. rest.1 (here.1 (u.0 refl) w) u.1,
        )
  | inr not_valid ↦
      let rest = range_from-Within s range ds s' h in
      rw not_valid
        (λ w. let (w1, u) = rest.0 w in (w1, (λ e. ground (arith, e), u)), λ w u. rest.1 w u.1)
]

range_from-rect_of :
    (s : Sides) (range : Rect) (ds : List Detected)
    → eq_ℤ s.l minus_one ≡ false
    → (range ≡ rect_of s) ⊎ (0 < (data_valided ds).0)
    → (range_from (s, range) ds).1 ≡ rect_of (range_from (s, range) ds).0
unfolding range_from widen data_valided
range_from-rect_of s range [] h (inl same) = same
range_from-rect_of s range [] h (inr more) = absurd (omega arith)
range_from-rect_of s range (d ∷ ds) h k = elim (Bool-cases (is_valid d)) [
  | inl valid ↦
      let next = stretch-started d.pt s (box-started d valid) h in
      rw (valid, h)
        (range_from-rect_of (stretch d.pt s) (rect_of (stretch d.pt s)) ds next (inl refl))
  | inr not_valid ↦ let k' = rw not_valid at k in rw not_valid (range_from-rect_of s range ds h k')
]

-- What is left to show where no valid point has come yet.
abbrev Fits : Sides × Rect → Sides → List Detected → Type 0
Fits (s, range) s' ds =
    (range ≡ rect_of s) × (Within s s' → HoldsAll s' ds) × (HoldsAll s' ds → Within s s')

range_from-Fits :
    (s : Sides) (range : Rect) (ds : List Detected) (s' : Sides)
    → eq_ℤ s.l minus_one ≡ true
    → 1 < (data_valided ds).0
    → Fits (range_from (s, range) ds) s' ds
unfolding range_from widen data_valided
range_from-Fits s range [] s' h n = absurd (omega arith)
range_from-Fits s range (d ∷ ds) s' h n = elim (Bool-cases (is_valid d)) [
  | inl valid ↦
      let next = box-started d valid in
      let n' = rw valid at n in
      let all = range_from-Within (box d.pt) range ds s' next in
      rw (valid, h)
        (
          range_from-rect_of (box d.pt) range ds next (inr (omega arith)),
          λ w. let (p, u) = all.0 w in (λ e. p, u),
          λ u. all.1 (u.0 refl) u.1,
        )
  | inr not_valid ↦
      let n' = rw not_valid at n in
      let (same, holds, least) = range_from-Fits s range ds s' h n' in
      rw not_valid (same, λ w. (λ e. ground (arith, e), holds w), λ u. least u.1)
]

-- The four sides of a rectangle.
abbrev pub sides_of : Rect → Sides
sides_of r = record { l = r.x; r = r.x +ℤ r.width; t = r.y; b = r.y +ℤ r.height }

sides_of-rect_of : (s : Sides) → sides_of (rect_of s) ≡ s
sides_of-rect_of s = rw (there s.l s.r, there s.t s.b) refl

-- With at least two valid points the range is the smallest rectangle that has them all in it: a box
-- holds the range exactly when it holds every valid point. What the variables of the code are at
-- first does not matter.
pub data_range-HoldsAll :
    (junk : ℤ × ℤ × ℤ) (ds : List Detected) (s' : Sides)
    → 1 < (data_valided ds).0
    → (Within (sides_of (data_range junk ds).0) s' → HoldsAll s' ds)
      × (HoldsAll s' ds → Within (sides_of (data_range junk ds).0) s')
unfolding data_range eq_ℤ
data_range-HoldsAll (r, t, b) ds s' n =
    let none_yet : Rect = record { x = minus_one; y = minus_one; width = pos 0; height = pos 0 } in
    let start : Sides = record { l = minus_one; r = r; t = t; b = b } in
    let (same, holds, least) = range_from-Fits start none_yet ds s' refl n in
    let sides = ap sides_of same ∙ sides_of-rect_of (range_from (start, none_yet) ds).0 in
    subst (λ s. (Within s s' → HoldsAll s' ds) × (HoldsAll s' ds → Within s s')) (sym sides)
      (holds, least)
