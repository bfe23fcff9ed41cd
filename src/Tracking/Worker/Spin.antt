-- ===== src/Tracking/Worker/Spin.antt =====
-- What the thread of tmp/TeacherRunningImpl.h does once its target is gone for good.
use libsimple.Base.{
  length, arith, ℕ, suc, ◌≡◌, refl, ap, sym, subst, true, false, List, [], ◌∷◌, ◌++◌, append-nil,
  append_assoc, ltb, ◌==◌,
}
use libsimple.Base.Int.{ℤ}
use libsimple.Clib.Text.{codes}
use libsimple.Outcome.{Outcome, done, ◌>>=◌}
use libsimple.Tracking.Analyze.{Detected}
use libsimple.Tracking.Config.{KvConfig}
use libsimple.Tracking.Tracker.{int_value}
use libsimple.Tracking.Tasks.{PtzCall, Task, reset, handle_task}
use libsimple.Tracking.Views.{
  fullview, too_old_valid_pt, Camera, Limits, Working, add, state_fullview, reset_working, to_next,
  run_state, trace_from, trace, set_result,
}
use libsimple.Tracking.Views.Gone.{is_gone, trytrace-gone}
use libsimple.Tracking.Worker.{do_first, do_next, wake_at, one_loop, wake}

-- The points that are there are too old at each of the times.
abbrev pub AllGone : Limits → List Detected → List ((ℤ × ℤ) × ℕ) → Type 0
AllGone lim ds [] = Unit
AllGone lim ds ((at, curr) ∷ ts) = (is_gone lim curr ds ≡ true) × AllGone lim ds ts

-- Some calls, again and again.
unfoldable pub repeated : {A B : Type 0} → List A → List B → List B
repeated [] xs = []
repeated (_ ∷ ts) xs = xs ++ repeated ts xs

module _ {C : Type 0} (kv : KvConfig C) where
  -- The task that reset_ptz adds.
  unfoldable pub home_of : C → Task
  unfolding int_value
  home_of cfg =
      reset (int_value kv cfg (codes "ptz_init_x") (codes "0"))
        (int_value kv cfg (codes "ptz_init_y") (codes "0"))
        (int_value kv cfg (codes "ptz_init_z") (codes "5000"))

module _ {C : Type 0} (kv : KvConfig C) (cam : Camera) (lim : Limits) where
  -- The turns of the loop at some places of the mount and times.
  unfoldable pub wakes : List ((ℤ × ℤ) × ℕ) → Working C → Outcome (Working C)
  unfolding wake
  wakes [] w = done w
  wakes ((at, curr) ∷ ts) w = wake kv cam lim at curr w >>= wakes ts

  -- The whole room is in view, and tasks may be left.
  record IsWide (cfg : C) (ds : List Detected) (calls : List PtzCall) (tasks : List Task)
      (posts : ℕ) (w : Working C) : Type 0 where
    same : w.cfg ≡ cfg
    wide : w.view ≡ fullview
    connected : w.has_ptz ≡ true
    tracking : (w.running_state == 0) ≡ true
    points : w.detected ≡ ds
    did : w.calls ≡ calls
    left : w.tasks ≡ tasks
    count : w.posts ≡ posts

  from-IsWide :
      (at : ℤ × ℤ) (cfg : C) (ds : List Detected) (calls : List PtzCall) (posts : ℕ) (w : Working C)
      → IsWide cfg ds calls [] posts w
      → IsWide cfg ds calls
          (home_of kv cfg ∷ [])
          (suc posts)
          (trace_from kv cam lim at fullview (set_result too_old_valid_pt w))
  unfolding run_state state_fullview reset_working add to_next home_of
  from-IsWide at cfg ds calls posts w s = simp s.connected (record {
    same = s.same;
    wide = s.wide;
    connected = refl;
    tracking = s.tracking;
    points = s.points;
    did = s.did;
    left = rw (s.left, s.same) refl;
    count = ap suc s.count;
  })

  trace-IsWide :
      (at : ℤ × ℤ) (cfg : C) (ds : List Detected) (calls : List PtzCall) (posts : ℕ) (w : Working C)
      → IsWide cfg ds calls [] posts w
      → IsWide cfg ds calls
          (home_of kv cfg ∷ [])
          (suc posts)
          (trace kv cam lim at (set_result too_old_valid_pt w))
  unfolding trace
  trace-IsWide at cfg ds calls posts w s =
      subst
        (λ v.
          IsWide cfg ds calls (home_of kv cfg ∷ []) (suc posts)
            (trace_from kv cam lim at v (set_result too_old_valid_pt w)))
        (sym s.wide) (from-IsWide at cfg ds calls posts w s)

  do_next-IsWide :
      (cfg : C) (ds : List Detected) (calls : List PtzCall) (t : Task) (posts : ℕ) (w : Working C)
      → IsWide cfg ds calls (t ∷ []) posts w
      → IsWide cfg ds (calls ++ handle_task t) [] posts (do_next w)
  unfolding do_next do_first
  do_next-IsWide cfg ds calls t posts w s =
      subst (λ ts. IsWide cfg ds (calls ++ handle_task t) [] posts (do_first ts w)) (sym s.left)
        (record {
          same = s.same;
          wide = s.wide;
          connected = s.connected;
          tracking = s.tracking;
          points = s.points;
          did = ap (λ cs. cs ++ handle_task t) s.did;
          left = refl;
          count = s.count;
        })

  one_loop-gone :
      (at : ℤ × ℤ) (curr : ℕ) (w : Working C)
      → (w.running_state == 0) ≡ true
      → is_gone lim curr w.detected ≡ true
      → one_loop kv cam lim at curr w
        ≡ done (do_next (trace kv cam lim at (set_result too_old_valid_pt w)))
  unfolding one_loop
  one_loop-gone at curr w tracking gone =
      let enough : ltb (length w.detected) 2 ≡ false = ground (arith, gone) in
      let e =
        ap (λ m. m >>= λ w'. done (do_next w'))
          (trytrace-gone kv cam lim at curr w.detected w gone) in
      rw (tracking, enough) (rw enough at e)

  wake-IsWide :
      (at : ℤ × ℤ) (curr : ℕ) (cfg : C) (ds : List Detected) (calls : List PtzCall) (posts : ℕ)
      (w : Working C)
      → IsWide cfg ds calls [] (suc posts) w
      → is_gone lim curr ds ≡ true
      → (w' : Working C) × (wake kv cam lim at curr w ≡ done w')
        × IsWide cfg ds (calls ++ handle_task (home_of kv cfg)) [] (suc posts) w'
  unfolding wake
  wake-IsWide at curr cfg ds calls posts w s gone =
      let w1 = record w { posts = posts } in
      let s1 : IsWide cfg ds calls [] posts w1 = record {
        same = s.same;
        wide = s.wide;
        connected = s.connected;
        tracking = s.tracking;
        points = s.points;
        did = s.did;
        left = s.left;
        count = refl;
      } in
      let gone' = subst (λ ds. is_gone lim curr ds ≡ true) (sym s.points) gone in
      (
        do_next (trace kv cam lim at (set_result too_old_valid_pt w1)),
        subst
            (λ n.
              wake_at kv cam lim n at curr w
              ≡ done (do_next (trace kv cam lim at (set_result too_old_valid_pt w1))))
            (sym s.count) (one_loop-gone at curr w1 s.tracking gone'),
        do_next-IsWide cfg ds calls (home_of kv cfg) (suc posts) _
            (trace-IsWide at cfg ds calls posts w1 s1),
      )

  wakes-IsWide :
      (ts : List ((ℤ × ℤ) × ℕ)) (cfg : C) (ds : List Detected) (calls : List PtzCall) (posts : ℕ)
      (w : Working C)
      → IsWide cfg ds calls [] (suc posts) w
      → AllGone lim ds ts
      → (w' : Working C) × (wakes ts w ≡ done w')
        × IsWide cfg ds (calls ++ repeated ts (handle_task (home_of kv cfg))) [] (suc posts) w'
  unfolding wakes repeated
  wakes-IsWide [] cfg ds calls posts w s g =
      (w, refl, subst (λ cs. IsWide cfg ds cs [] (suc posts) w) (sym (append-nil calls)) s)
  wakes-IsWide ((at, curr) ∷ ts) cfg ds calls posts w s (g, gs) =
      let (w1, e1, s1) = wake-IsWide at curr cfg ds calls posts w s g in
      let again = handle_task (home_of kv cfg) in
      let (w2, e2, s2) = wakes-IsWide ts cfg ds (calls ++ again) posts w1 s1 gs in
      (
        w2,
        rw e1 e2,
        subst (λ cs. IsWide cfg ds cs [] (suc posts) w2)
            (append_assoc calls again (repeated ts again)) s2,
      )

  -- While the target is too old in the view of the whole room, every turn of the loop sends the mount
  -- home again and posts the semaphore again, so that the next turn does not wait; for a mount that is
  -- there and is not being set up, as long as no new point comes, and where at first no task is left
  -- but a post is there.
  pub wakes-forever :
      (ts : List ((ℤ × ℤ) × ℕ)) (posts : ℕ) (w : Working C)
      → w.view ≡ fullview
      → w.has_ptz ≡ true
      → w.running_state ≡ 0
      → w.tasks ≡ []
      → w.posts ≡ suc posts
      → AllGone lim w.detected ts
      → (w' : Working C) × (wakes ts w ≡ done w')
        × (w'.posts ≡ suc posts)
        × (w'.calls ≡ w.calls ++ repeated ts (handle_task (home_of kv w.cfg)))
  wakes-forever ts posts w wide there tracking idle count gone =
      let s : IsWide w.cfg w.detected w.calls [] (suc posts) w = record {
        same = refl;
        wide = wide;
        connected = there;
        tracking = rw tracking refl;
        points = refl;
        did = refl;
        left = idle;
        count = count;
      } in
      let (w', e, s') = wakes-IsWide ts w.cfg w.detected w.calls posts w s gone in
      (w', e, s'.count, s'.did)
