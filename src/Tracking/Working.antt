-- ===== src/Tracking/Working.antt =====
-- The state of the thread of tmp/TeacherRunningImpl.h, and what it asks of the cameras and of
-- tmp/TracePolicy.cpp.
use libsimple.Base.{ℕ, Bool, List}
use libsimple.Base.Int.{ℤ}
use libsimple.Tracking.Analyze.{Detected, Rect}
use libsimple.Tracking.Points.{Point}
use libsimple.Tracking.Tasks.{Task, PtzCall}

-- TeacherImplRunningState
pub data View : Type 0 where
  fullview to_close closeview : View

-- TeacherTracingResult
pub data TracingResult : Type 0 where
  ok no_enough_pts no_enough_valid_pts too_old_valid_pt : TracingResult

-- TeacherTracingInfo, as far as the three states read it; `to` is ToClose
pub record TracingInfo : Type 0 where
  pub result : TracingResult
  pub rc_detect : Rect
  pub rc_trace : Rect
  pub pt_detect_last : Point
  pub pt_trace_last : Point
  pub valid_duration : ℤ
  pub hvec : ℤ
  pub vvec : ℤ
  pub to : ℤ × ℤ
  pub next_state : View

-- The speeds, the direction and the distance of TracingData.
pub record TracingData : Type 0 where
  pub max_speed : ℤ
  pub min_speed : ℤ
  pub speed : ℤ
  pub is_middle : Bool
  pub distance : ℤ

-- The cameras: where the mount has to point for a place in the picture, and what a rectangle and a
-- place are in the other picture while the mount points somewhere.
pub record Camera : Type 0 where
  pub point_cov : Point → ℤ × ℤ
  pub det2tra : ℤ × ℤ → Rect → Point → Rect × Point

-- What TracePolicy answers; `second` is 1.0.
pub record Limits : Type 0 where
  pub second : ℕ
  pub analyze_interval : ℕ
  pub to_stop_tracing : ℕ

-- TeacherWorkingThread; `posts` is what the semaphore counts.
pub record Working (C : Type 0) : Type 0 where
  pub cfg : C
  pub view : View
  pub info : TracingInfo
  pub tracing : TracingData
  pub has_ptz : Bool
  pub running_state : ℕ
  pub stable : ℤ × ℤ
  pub trace_last_pos : Point
  pub test_last_dir : ℤ
  pub detected : List Detected
  pub calls : List PtzCall
  pub tasks : List Task
  pub posts : ℕ
