-- ===== src/Tracking/Views/Gone.antt =====
-- What tmp/TeacherRunningImpl.cpp does once its target is gone for good.
use libsimple.Base.{
  length, not, ◌&&◌, arith, ℕ, ◌+◌, ◌≡◌, refl, ap, sym, ◌∙◌, subst, Bool, true, false, Option, none,
  some, List, [], ◌∷◌, ltb,
}
use libsimple.Base.Int.{ℤ, pos, ltb_ℤ}
use libsimple.Outcome.{Outcome, done, fault, ◌>>=◌}
use libsimple.Tracking.Analyze.{Detected, recent_data, is_long, update_data, data_last_valid}
use libsimple.Tracking.Config.{KvConfig}
use libsimple.Tracking.Tracker.{half}
use libsimple.Tracking.Views.{
  closeview, TracingResult, too_old_valid_pt, Camera, Limits, Working, abs, to_view,
  state_closeview, to_next, run_state, trace_from, trace, set_result, judge, trace_by, trace_recent,
  trytrace,
}

-- Whether there is a last valid point in the last seconds, but too old a one.
abbrev pub is_old : Limits → ℕ → Option Detected → Bool
is_old lim curr none = false
is_old lim curr (some last) = ltb (last.stamp + lim.to_stop_tracing) curr

abbrev pub is_gone : Limits → ℕ → List Detected → Bool
is_gone lim curr ds =
    not (ltb (length ds) 2)
    && is_old lim curr (data_last_valid (recent_data lim.second lim.analyze_interval ds))

-- so at each of some calls
abbrev pub AllGone : Limits → List ((ℤ × ℤ) × ℕ × List Detected) → Type 0
AllGone lim [] = Unit
AllGone lim ((at, curr, ds) ∷ fs) = (is_gone lim curr ds ≡ true) × AllGone lim fs

module _ {C : Type 0} where
  -- Whether the last place of the target is in the stable part of the picture.
  abbrev pub is_stable : Working C → Bool
  is_stable w = not (ltb_ℤ (half w.stable.0) (pos (abs w.info.pt_trace_last.x)))

module _ {C : Type 0} (kv : KvConfig C) (cam : Camera) (lim : Limits) where
  trace_recent-gone :
      (at : ℤ × ℤ) (curr : ℕ) (recent : List Detected) (usable : Bool) (w : Working C)
      → is_old lim curr (data_last_valid recent) ≡ true
      → trace_recent kv cam lim at curr recent usable w
        ≡ done (trace kv cam lim at (set_result too_old_valid_pt w))
  unfolding trace_recent judge
  trace_recent-gone at curr recent usable w = over (data_last_valid recent)
    where
      over :
          (found : Option Detected)
          → is_old lim curr found ≡ true
          → (elim found [
            | none ↦ fault
            | some last ↦
                let r = judge lim curr usable last recent in
                done (trace_by kv cam lim at r last recent (set_result r w))
          ])
            ≡ done (trace kv cam lim at (set_result too_old_valid_pt w))
      over none h = ground (arith, h)
      over (some last) h = rw h refl

  pub trytrace-gone :
      (at : ℤ × ℤ) (curr : ℕ) (ds : List Detected) (w : Working C)
      → is_gone lim curr ds ≡ true
      → trytrace kv cam lim at curr ds w
        ≡ done (trace kv cam lim at (set_result too_old_valid_pt w))
  unfolding trytrace update_data
  trytrace-gone at curr ds w h =
      let recent = recent_data lim.second lim.analyze_interval ds in
      let both : (ltb (length ds) 2 ≡ false) × (is_old lim curr (data_last_valid recent) ≡ true) =
        ground (arith, h) in
      rw both.0 (trace_recent-gone at curr recent (is_long lim.analyze_interval recent) w both.1)

  -- Calls of trytrace, at some places of the mount and times and with some points.
  unfoldable pub trytraces : List ((ℤ × ℤ) × ℕ × List Detected) → Working C → Outcome (Working C)
  unfolding trytrace
  trytraces [] w = done w
  trytraces ((at, curr, ds) ∷ fs) w = trytrace kv cam lim at curr ds w >>= trytraces fs

  trace-closeview :
      (at : ℤ × ℤ) (r : TracingResult) (w : Working C)
      → w.view ≡ closeview
      → is_stable w ≡ true
      → trace kv cam lim at (set_result r w) ≡ to_view closeview (set_result r w)
  unfolding trace run_state state_closeview to_next
  trace-closeview at r w v h =
      subst (λ v. trace_from kv cam lim at v (set_result r w) ≡ to_view closeview (set_result r w))
        (sym v)
        (let inside : ltb_ℤ (half w.stable.0) (pos (abs w.info.pt_trace_last.x)) ≡ false =
            ground (arith, h) in
          rw inside refl)

  -- In the close view, with the last place of the target in the stable part of the picture, a target
  -- that is too old at every call from then on leaves everything as it is: the view stays the close
  -- one, and the mount is asked nothing.
  pub trytraces-closeview :
      (fs : List ((ℤ × ℤ) × ℕ × List Detected)) (w : Working C)
      → w.view ≡ closeview
      → is_stable w ≡ true
      → AllGone lim fs
      → (w' : Working C) × (trytraces fs w ≡ done w')
        × (w'.view ≡ closeview)
        × (w'.calls ≡ w.calls)
        × (w'.tasks ≡ w.tasks)
  unfolding trytraces
  trytraces-closeview [] w v h g = (w, refl, v, refl, refl)
  trytraces-closeview ((at, curr, ds) ∷ fs) w v h (g, gs) =
      let w1 = to_view closeview (set_result too_old_valid_pt w) in
      let e = trytrace-gone at curr ds w g ∙ ap done (trace-closeview at too_old_valid_pt w v h) in
      let (w', run, v', cs, ts) = trytraces-closeview fs w1 v h gs in
      (w', ap (λ m. m >>= trytraces fs) e ∙ run, v', cs, ts)
