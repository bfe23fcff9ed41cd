-- ===== src/Tracking/Views/Aim.antt =====
-- Where the mount has been sent and stood when trytrace of tmp/TeacherRunningImpl.cpp is in the close
-- view.
use libsimple.Base.{ℕ, ◌<◌, ◌⊎◌, [], ◌∷◌, ◌++◌, ◌≡◌, Bool, true, false, List}
use libsimple.Base.Int.{ℤ, ◌-ℤ◌}
use libsimple.Tracking.Analyze.{Detected}
use libsimple.Tracking.Config.{KvConfig}
use libsimple.Tracking.Tasks.{PtzCall, ptz_set_absolute_position}
use libsimple.Tracking.Views.{View, fullview, to_close, closeview, Camera, Limits, Working, abs}

-- The last call made to the mount sends it to a place.
abbrev pub LastTo : ℤ × ℤ → List PtzCall → Type 0
LastTo to calls =
    (before : List PtzCall) × (calls ≡ before ++ (ptz_set_absolute_position to.0 to.1 30 ∷ []))

abbrev pub Near : ℤ × ℤ → ℤ × ℤ → Type 0
Near at to = (abs (at.0 -ℤ to.0) < 3) × (abs (at.1 -ℤ to.1) < 3)

-- Near the place at one of the calls of trytrace.
abbrev pub Stood : List ((ℤ × ℤ) × ℕ × List Detected) → ℤ × ℤ → Type 0
Stood [] to = ⊥
Stood ((at, curr, ds) ∷ fs) to = Near at to ⊎ Stood fs to

-- What holds in a view, of the place that is kept; `P` of a place where the mount has stood.
abbrev AimedAt : (ℤ × ℤ → Type 0) → View → Bool → ℤ × ℤ → List PtzCall → Type 0
AimedAt P fullview has_ptz to calls = Unit
AimedAt P to_close has_ptz to calls = (has_ptz ≡ false) ⊎ LastTo to calls
AimedAt P closeview has_ptz to calls = (has_ptz ≡ true) × LastTo to calls × P to

abbrev Aimed : {C : Type 0} → (ℤ × ℤ → Type 0) → Working C → Type 0
Aimed P w = AimedAt P w.view w.has_ptz w.info.to w.calls

module _ {C : Type 0} (kv : KvConfig C) (cam : Camera) (lim : Limits) where
  module _ (P : ℤ × ℤ → Type 0) (at : ℤ × ℤ) where
    -- after a call with the mount at `at`
    abbrev Later : Working C → Type 0
    Later w = Aimed (λ to. P to ⊎ Near at to) w

  -- What the close view tells, at the end of any calls of trytrace.
  abbrev pub IsAimed : List ((ℤ × ℤ) × ℕ × List Detected) → View → Working C → Type 0
  IsAimed fs fullview w = Unit
  IsAimed fs to_close w = (w.has_ptz ≡ false) ⊎ LastTo w.info.to w.calls
  IsAimed fs closeview w = (w.has_ptz ≡ true) × LastTo w.info.to w.calls × Stood fs w.info.to
