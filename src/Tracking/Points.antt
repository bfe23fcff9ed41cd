-- ===== src/Tracking/Points.antt =====
-- Points of a calibration as text, `x,y;` for each: key_calibrating_handle of tmp/TeacherRunning.cpp
-- and key_handle_calibrating of tmp/StudentRunning.cpp write it; load_roi of tmp/TeacherRunning.cpp,
-- build_mask_internal of tmp/Running.h and load_calibration_edge of tmp/TeacherPtz.cpp read it.
pub mod RoundTrip
use libsimple.Base.{Option, none, some, List, [], ◌∷◌, ◌++◌, Bytes, ◌==◌, if◌then◌else◌}
use libsimple.Base.Int.{ℤ}
use libsimple.Clib.Scan.{print_int, scan_int}
use libsimple.Clib.Tokens.{tokens}

-- cv::Point, and CvPoint
pub record Point : Type 0 where
  pub x : ℤ
  pub y : ℤ

-- the loop of sprintf(pts+n, "%d,%d;", …)
unfoldable pub print_points : List Point → Bytes
print_points [] = []
print_points (p ∷ ps) = (print_int p.x ++ (b',' ∷ print_int p.y)) ++ (b';' ∷ print_points ps)

abbrev pub with_y : ℤ → Option (ℤ × Bytes) → Option Point
with_y x none = none
with_y x (some (y, rest)) = some (record { x = x; y = y })

abbrev pub with_x : Option (ℤ × Bytes) → Option Point
with_x none = none
with_x (some (x, [])) = none
with_x (some (x, c ∷ s)) = if c == b',' then with_y x (scan_int s) else none

-- `sscanf(p, "%d,%d", &x, &y) == 2`
unfoldable pub scan_point : Bytes → Option Point
scan_point s = with_x (scan_int s)

abbrev pub pushed : Option Point → List Point → List Point
pushed none ps = ps
pushed (some p) ps = p ∷ ps

-- the loop over the tokens
unfoldable pub scan_points : List Bytes → List Point
scan_points [] = []
scan_points (t ∷ ts) = pushed (scan_point t) (scan_points ts)

-- the points of a value of the configuration
unfoldable pub read_points : Option Bytes → List Point
read_points none = []
read_points (some text) = scan_points (tokens b';' text)
