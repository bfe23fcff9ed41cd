-- ===== src/Tracking/Analyze.antt =====
-- tmp/TeacherAnalyze.cpp: what the last seconds say of how the teacher moves. A time is a natural
-- number of some unit.
pub mod Vector
pub mod Range
use libsimple.Base.{
  ℕ, suc, ◌+◌, Bool, true, false, not, Option, none, some, List, [], ◌∷◌, ltb, leb, length,
  if◌then◌else◌,
}
use libsimple.Base.Int.{ℤ, pos, minus_one, ◌+ℤ◌, ◌-ℤ◌, ltb_ℤ, sub_ℕ, eq_ℤ}
use libsimple.Outcome.{Outcome, done, fault}
use libsimple.Tracking.Points.{Point}

-- TeacherDetected
pub record Detected : Type 0 where
  pub stamp : ℕ
  pub pt : Point

-- `it->pt.x != -1`
unfoldable pub is_valid : Detected → Bool
unfolding eq_ℤ
is_valid d = not (eq_ℤ d.pt.x minus_one)

-- data_valided
unfoldable pub data_valided : List Detected → ℕ × ℕ
unfolding is_valid
data_valided [] = (0, 0)
data_valided (d ∷ ds) =
    let (valid, invalid) = data_valided ds in
    if is_valid d then (suc valid, invalid) else (valid, suc invalid)

-- data_first_valid
unfoldable pub data_first_valid : List Detected → Option Detected
unfolding is_valid
data_first_valid [] = none
data_first_valid (d ∷ ds) = let later = data_first_valid ds in if is_valid d then some d else later

abbrev pub later_or : Option Detected → Option Detected → Option Detected
later_or (some later) d = some later
later_or none d = d

-- data_last_valid
unfoldable pub data_last_valid : List Detected → Option Detected
unfolding is_valid
data_last_valid [] = none
data_last_valid (d ∷ ds) = later_or (data_last_valid ds) (if is_valid d then some d else none)

-- `data.back().stamp`, of `d` and what follows
unfoldable pub back_stamp : Detected → List Detected → ℕ
back_stamp d [] = d.stamp
back_stamp d (e ∷ ds) = back_stamp e ds

-- data_duration: what it returns, and `valid`
unfoldable pub data_duration : List Detected → ℤ × ℤ
unfolding data_first_valid data_last_valid back_stamp
data_duration [] = (pos 0, pos 0)
data_duration (d ∷ []) = (pos 0, pos 0)
data_duration (d ∷ e ∷ ds) =
    let all = sub_ℕ (back_stamp e ds) d.stamp in
    elim (data_first_valid (d ∷ e ∷ ds)) [
      | none ↦ (all, pos 0)
      | some first ↦ elim (data_last_valid (d ∷ e ∷ ds)) [
        | none ↦ (all, pos 0)
        | some last ↦ (all, sub_ℕ last.stamp first.stamp)
      ]
    ]

-- `it->stamp >= first`
unfoldable pub keep_recent : ℕ → ℕ → List Detected → List Detected
keep_recent last span [] = []
keep_recent last span (d ∷ ds) =
    let rest = keep_recent last span ds in if leb last (d.stamp + span) then d ∷ rest else rest

-- What update_data leaves in data_; `second` is the 1.0 of the code.
unfoldable pub recent_data : ℕ → ℕ → List Detected → List Detected
unfolding keep_recent back_stamp
recent_data second duration [] = []
recent_data second duration (d ∷ ds) = keep_recent (back_stamp d ds) (duration + second) (d ∷ ds)

-- What it returns.
unfoldable pub is_long : ℕ → List Detected → Bool
unfolding data_duration
is_long duration recent = not (ltb_ℤ (data_duration recent).0 (pos duration))

-- update_data: data_, and what it returns
unfoldable pub update_data : ℕ → ℕ → List Detected → Outcome (List Detected × Bool)
unfolding recent_data is_long
update_data second duration ds =
    let recent = recent_data second duration ds in
    if ltb (length ds) 2 then fault else done (recent, is_long duration recent)

-- The loop of data_vec; `before` is (x, y) once `started`.
unfoldable pub vec_from : Option Point → ℤ × ℤ → List Detected → ℤ × ℤ
unfolding is_valid
vec_from before hv [] = hv
vec_from before (h, v) (d ∷ ds) =
    let moved : ℤ × ℤ = elim before [
      | none ↦ (h, v)
      | some p ↦ (h +ℤ (d.pt.x -ℤ p.x), v +ℤ (d.pt.y -ℤ p.y))
    ] in
    if is_valid d then vec_from (some d.pt) moved ds else vec_from before (h, v) ds

-- data_vec
unfoldable pub data_vec : List Detected → ℤ × ℤ
unfolding vec_from
data_vec ds = vec_from none (pos 0, pos 0) ds

unfoldable pub min_ℤ : ℤ → ℤ → ℤ
min_ℤ a b = if ltb_ℤ b a then b else a

unfoldable pub max_ℤ : ℤ → ℤ → ℤ
max_ℤ a b = if ltb_ℤ a b then b else a

-- cv::Rect
pub record Rect : Type 0 where
  pub x : ℤ
  pub y : ℤ
  pub width : ℤ
  pub height : ℤ

-- l, r, t and b of data_range; the last three are not set while `l` is -1.
pub record Sides : Type 0 where
  pub l : ℤ
  pub r : ℤ
  pub t : ℤ
  pub b : ℤ

abbrev pub rect_of : Sides → Rect
rect_of s = record { x = s.l; y = s.t; width = s.r -ℤ s.l; height = s.b -ℤ s.t }

-- a box of one point
abbrev pub box : Point → Sides
box p = record { l = p.x; r = p.x; t = p.y; b = p.y }

unfoldable pub stretch : Point → Sides → Sides
unfolding min_ℤ max_ℤ
stretch p s = record { l = min_ℤ p.x s.l; r = max_ℤ p.x s.r; t = min_ℤ p.y s.t; b = max_ℤ p.y s.b }

-- One valid point of the loop of data_range.
unfoldable pub widen : Point → Sides × Rect → Sides × Rect
unfolding eq_ℤ stretch
widen p (s, range) =
    if eq_ℤ s.l minus_one then (box p, range) else (stretch p s, rect_of (stretch p s))

unfoldable pub range_from : Sides × Rect → List Detected → Sides × Rect
unfolding is_valid widen
range_from s [] = s
range_from s (d ∷ ds) = if is_valid d then range_from (widen d.pt s) ds else range_from s ds

-- data_range: the range and what it returns; `junk` is what `r`, `t` and `b` are at first.
unfoldable pub data_range : ℤ × ℤ × ℤ → List Detected → Rect × Bool
unfolding range_from eq_ℤ
data_range (r, t, b) ds =
    let none_yet : Rect = record { x = minus_one; y = minus_one; width = pos 0; height = pos 0 } in
    let range = (range_from (record { l = minus_one; r = r; t = t; b = b }, none_yet) ds).1 in
    (range, not (eq_ℤ range.width (pos 0)))
