-- ===== src/Thread/Inv.antt =====
-- The invariant of a worker thread of src/thread.c and its callers.
use libsimple.Base.{
  ℕ, zero, suc, ◌≡◌, ◌⊎◌, inl, inr, refl, ap, sym, subst, Option, none, some, List, [], ◌∷◌, ◌++◌,
  arith,
}
use libsimple.Thread.{
  CallPhase, locked, written, posted, answered, leaving, WorkPhase, waiting, woken, replying,
  left_loop, holding, Call, Thread, create, request, serve_step, Step, enter, caller, worker,
  timed_out, quits, reply_with, Reach, here, next, wait_reply, wait_request, in_phase,
}

-- Each reply is the worker's answer to its request.
abbrev pub AllServed : (ℕ → Option ℕ) → List (ℕ × ℕ) → Type 0
AllServed serve [] = Unit
AllServed serve (r ∷ rs) = (serve r.0 ≡ some r.1) × AllServed serve rs

module _ (serve : ℕ → Option ℕ) where
  AllServed-append :
      (rs : List (ℕ × ℕ)) (arg rpl : ℕ)
      → AllServed serve rs
      → serve arg ≡ some rpl
      → AllServed serve (rs ++ ((arg, rpl) ∷ []))
  AllServed-append [] arg rpl h e = (e, tt)
  AllServed-append (r ∷ rs) arg rpl h e = (h.0, AllServed-append rs arg rpl h.1 e)

  -- Which counts and pointers go with the place of the caller while the worker waits, or has left its
  -- loop; and which with both places.
  abbrev pub FitsIdle : CallPhase → ℕ → Thread → Type 0
  FitsIdle locked arg t = (t.sem_req ≡ 0) × (t.sem_rpl ≡ 0)
  FitsIdle written arg t = (t.sem_req ≡ 0) × (t.sem_rpl ≡ 0) × (t.req ≡ arg)
  FitsIdle posted arg t =
      ((t.sem_req ≡ 1) × (t.sem_rpl ≡ 0) × (t.req ≡ arg))
      ⊎ (((t.sem_req ≡ 0) × (t.sem_rpl ≡ 1) × (serve arg ≡ some t.rpl))
          ⊎ ((t.sem_req ≡ 0) × (t.sem_rpl ≡ 0) × (serve arg ≡ none)))
  FitsIdle answered arg t = (t.sem_req ≡ 0) × (t.sem_rpl ≡ 0) × (serve arg ≡ some t.rpl)
  FitsIdle (leaving rpl) arg t = (t.sem_req ≡ 0) × (t.sem_rpl ≡ 0) × (serve arg ≡ some rpl)

  abbrev pub Fits : CallPhase → ℕ → WorkPhase → Thread → Type 0
  Fits phase arg waiting t = FitsIdle phase arg t
  Fits phase arg left_loop t = FitsIdle phase arg t
  Fits posted arg woken t = (t.sem_req ≡ 0) × (t.sem_rpl ≡ 0) × (t.req ≡ arg)
  Fits posted arg (holding req) t = (t.sem_req ≡ 0) × (t.sem_rpl ≡ 0) × (req ≡ arg)
  Fits posted arg replying t = (t.sem_req ≡ 0) × (t.sem_rpl ≡ 0) × (serve arg ≡ some t.rpl)
  Fits _ arg _ t = ⊥

  abbrev pub FitsCall : Option Call → WorkPhase → Thread → Type 0
  FitsCall none waiting t = (t.sem_req ≡ 0) × (t.sem_rpl ≡ 0)
  FitsCall none left_loop t = (t.sem_req ≡ 0) × (t.sem_rpl ≡ 0)
  FitsCall none _ t = ⊥
  FitsCall (some c) w t = Fits c.phase c.arg w t

  pub record Inv (t : Thread) : Type 0 where
    pub fits : FitsCall t.call t.worker t
    pub served : AllServed serve t.returned

  abbrev AllSome : Option Thread → Type 0
  AllSome none = Unit
  AllSome (some t) = Inv t

  no_reply : (n arg : ℕ) (t : Thread) → n ≡ 0 → AllSome (wait_reply n arg t)
  unfolding wait_reply
  no_reply zero arg t h = tt
  no_reply (suc n) arg t h = absurd (omega arith)

  take_reply :
      (n arg : ℕ) (w : WorkPhase) (t : Thread)
      → ((k : ℕ) → k ≡ 0 → Fits answered arg w (record t { sem_rpl = k }))
      → n ≡ 1
      → AllServed serve t.returned
      → AllSome (wait_reply n arg (record t { worker = w }))
  unfolding wait_reply
  take_reply zero arg w t fits e s = tt
  take_reply (suc n) arg waiting t fits e s = record { fits = fits n (omega arith); served = s }
  take_reply (suc n) arg left_loop t fits e s = record { fits = fits n (omega arith); served = s }
  take_reply (suc n) arg woken t fits e s = absurd (fits 0 refl)
  take_reply (suc n) arg (holding r) t fits e s = absurd (fits 0 refl)
  take_reply (suc n) arg replying t fits e s = absurd (fits 0 refl)

  request-Inv :
      (phase : CallPhase) (arg : ℕ) (w : WorkPhase) (t : Thread)
      → Fits phase arg w t
      → AllServed serve t.returned
      → AllSome (request phase arg (record t { worker = w }))
  unfolding request
  request-Inv locked arg waiting t f s = record { fits = (f.0, f.1, refl); served = s }
  request-Inv locked arg left_loop t f s = record { fits = (f.0, f.1, refl); served = s }
  request-Inv locked arg woken t f s = absurd f
  request-Inv locked arg (holding r) t f s = absurd f
  request-Inv locked arg replying t f s = absurd f
  request-Inv written arg waiting t f s = record { fits = inl (omega arith, f.1, f.2); served = s }
  request-Inv written arg left_loop t f s = record {
    fits = inl (omega arith, f.1, f.2);
    served = s;
  }
  request-Inv written arg woken t f s = absurd f
  request-Inv written arg (holding r) t f s = absurd f
  request-Inv written arg replying t f s = absurd f
  request-Inv posted arg waiting t (inl f) s =
      no_reply t.sem_rpl arg (record t { worker = waiting }) f.1
  request-Inv posted arg waiting t (inr (inl f)) s =
      take_reply t.sem_rpl arg waiting t (λ k z. (f.0, z, f.2)) f.1 s
  request-Inv posted arg waiting t (inr (inr f)) s =
      no_reply t.sem_rpl arg (record t { worker = waiting }) f.1
  request-Inv posted arg left_loop t (inl f) s =
      no_reply t.sem_rpl arg (record t { worker = left_loop }) f.1
  request-Inv posted arg left_loop t (inr (inl f)) s =
      take_reply t.sem_rpl arg left_loop t (λ k z. (f.0, z, f.2)) f.1 s
  request-Inv posted arg left_loop t (inr (inr f)) s =
      no_reply t.sem_rpl arg (record t { worker = left_loop }) f.1
  request-Inv posted arg woken t f s = no_reply t.sem_rpl arg (record t { worker = woken }) f.1
  request-Inv posted arg (holding r) t f s =
      no_reply t.sem_rpl arg (record t { worker = holding r }) f.1
  request-Inv posted arg replying t f s =
      no_reply t.sem_rpl arg (record t { worker = replying }) f.1
  request-Inv answered arg waiting t f s = record { fits = f; served = s }
  request-Inv answered arg left_loop t f s = record { fits = f; served = s }
  request-Inv answered arg woken t f s = absurd f
  request-Inv answered arg (holding r) t f s = absurd f
  request-Inv answered arg replying t f s = absurd f
  request-Inv (leaving y) arg waiting t f s = record {
    fits = (f.0, f.1);
    served = AllServed-append t.returned arg y s f.2;
  }
  request-Inv (leaving y) arg left_loop t f s = record {
    fits = (f.0, f.1);
    served = AllServed-append t.returned arg y s f.2;
  }
  request-Inv (leaving y) arg woken t f s = absurd f
  request-Inv (leaving y) arg (holding r) t f s = absurd f
  request-Inv (leaving y) arg replying t f s = absurd f

  no_request : (n : ℕ) (t : Thread) → n ≡ 0 → AllSome (wait_request n t)
  unfolding wait_request
  no_request zero t h = tt
  no_request (suc n) t h = absurd (omega arith)

  take_request :
      (n arg : ℕ) (t : Thread)
      → n ≡ 1
      → t.sem_rpl ≡ 0
      → t.req ≡ arg
      → AllServed serve t.returned
      → AllSome (wait_request n (record t { call = in_phase arg posted }))
  unfolding wait_request
  take_request zero arg t h z e s = tt
  take_request (suc n) arg t h z e s = record { fits = (omega arith, z, e); served = s }

  replies :
      (o : Option ℕ) (arg : ℕ) (t : Thread)
      → t.sem_req ≡ 0
      → t.sem_rpl ≡ 0
      → serve arg ≡ o
      → AllServed serve t.returned
      → AllSome (reply_with o (record t { call = in_phase arg posted }))
  unfolding reply_with
  replies none arg t z z' e s = record { fits = inr (inr (z, z', e)); served = s }
  replies (some y) arg t z z' e s = record { fits = (z, z', e); served = s }

  serve_step-Fits :
      (phase : CallPhase) (arg : ℕ) (w : WorkPhase) (t : Thread)
      → Fits phase arg w t
      → AllServed serve t.returned
      → AllSome (serve_step serve w (record t { call = in_phase arg phase }))
  unfolding serve_step
  serve_step-Fits locked arg waiting t f s =
      no_request t.sem_req (record t { call = in_phase arg locked }) f.0
  serve_step-Fits locked arg left_loop t f s = tt
  serve_step-Fits locked arg woken t f s = absurd f
  serve_step-Fits locked arg (holding r) t f s = absurd f
  serve_step-Fits locked arg replying t f s = absurd f
  serve_step-Fits written arg waiting t f s =
      no_request t.sem_req (record t { call = in_phase arg written }) f.0
  serve_step-Fits written arg left_loop t f s = tt
  serve_step-Fits written arg woken t f s = absurd f
  serve_step-Fits written arg (holding r) t f s = absurd f
  serve_step-Fits written arg replying t f s = absurd f
  serve_step-Fits posted arg waiting t (inl f) s = take_request t.sem_req arg t f.0 f.1 f.2 s
  serve_step-Fits posted arg waiting t (inr (inl f)) s =
      no_request t.sem_req (record t { call = in_phase arg posted }) f.0
  serve_step-Fits posted arg waiting t (inr (inr f)) s =
      no_request t.sem_req (record t { call = in_phase arg posted }) f.0
  serve_step-Fits posted arg left_loop t f s = tt
  serve_step-Fits posted arg woken t f s = record { fits = f; served = s }
  serve_step-Fits posted arg (holding r) t f s =
      replies (serve r) arg t f.0 f.1 (sym (ap serve f.2)) s
  serve_step-Fits posted arg replying t f s = record {
    fits = inr (inl (f.0, omega arith, f.2));
    served = s;
  }
  serve_step-Fits answered arg waiting t f s =
      no_request t.sem_req (record t { call = in_phase arg answered }) f.0
  serve_step-Fits answered arg left_loop t f s = tt
  serve_step-Fits answered arg woken t f s = absurd f
  serve_step-Fits answered arg (holding r) t f s = absurd f
  serve_step-Fits answered arg replying t f s = absurd f
  serve_step-Fits (leaving y) arg waiting t f s =
      no_request t.sem_req (record t { call = in_phase arg (leaving y) }) f.0
  serve_step-Fits (leaving y) arg left_loop t f s = tt
  serve_step-Fits (leaving y) arg woken t f s = absurd f
  serve_step-Fits (leaving y) arg (holding r) t f s = absurd f
  serve_step-Fits (leaving y) arg replying t f s = absurd f

  serve_step-Inv :
      (o : Option Call) (w : WorkPhase) (t : Thread)
      → FitsCall o w t
      → AllServed serve t.returned
      → AllSome (serve_step serve w (record t { call = o }))
  unfolding serve_step
  serve_step-Inv (some c) w t f s = serve_step-Fits c.phase c.arg w t f s
  serve_step-Inv none waiting t f s = no_request t.sem_req (record t { call = none }) f.0
  serve_step-Inv none left_loop t f s = tt
  serve_step-Inv none woken t f s = absurd f
  serve_step-Inv none (holding r) t f s = absurd f
  serve_step-Inv none replying t f s = absurd f

  entered :
      (arg : ℕ) (w : WorkPhase) (t : Thread)
      → FitsCall none w t
      → Fits locked arg w (record t { call = in_phase arg locked })
  entered arg waiting t f = f
  entered arg left_loop t f = f
  entered arg woken t f = f
  entered arg (holding r) t f = f
  entered arg replying t f = f

  gone :
      (o : Option Call) (t : Thread)
      → FitsCall o waiting t
      → FitsCall o left_loop (record t { worker = left_loop })
  gone none t f = f
  gone (some c) t f = gone_from c.phase c.arg t f
    where
      gone_from :
          (phase : CallPhase) (arg : ℕ) (t : Thread)
          → Fits phase arg waiting t
          → Fits phase arg left_loop (record t { worker = left_loop })
      gone_from locked arg t f = f
      gone_from written arg t f = f
      gone_from posted arg t f = f
      gone_from answered arg t f = f
      gone_from (leaving y) arg t f = f

  Step-Inv : {t u : Thread} → Step serve t u → Inv t → Inv u
  Step-Inv {t} {u} (enter arg free e) v = subst Inv (sym e) (record {
    fits = entered arg t.worker t (subst (λ o. FitsCall o t.worker t) free v.fits);
    served = v.served;
  })
  Step-Inv {t} {u} (caller c inside e) v = subst AllSome e (
      request-Inv c.phase c.arg t.worker t (subst (λ o. FitsCall o t.worker t) inside v.fits)
        v.served)
  Step-Inv {t} {u} (worker e) v = subst AllSome e (serve_step-Inv t.call t.worker t v.fits v.served)
  Step-Inv {t} {u} (timed_out w e) v = subst Inv (sym e) v
  Step-Inv {t} {u} (quits w e) v = subst Inv (sym e) (record {
    fits = gone t.call t (subst (λ p. FitsCall t.call p t) w v.fits);
    served = v.served;
  })

  create-Inv : (req rpl : ℕ) → Inv (create req rpl)
  unfolding create
  create-Inv req rpl = record { fits = (refl, refl); served = tt }

  pub Reach-Inv : (req rpl : ℕ) {t : Thread} → Reach serve (create req rpl) t → Inv t
  Reach-Inv req rpl here = create-Inv req rpl
  Reach-Inv req rpl (next r st) = Step-Inv st (Reach-Inv req rpl r)
