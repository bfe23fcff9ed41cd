-- ===== src/TcpClient/Recv.antt =====
-- `simple_tcpclient_recvt` and `simple_tcpclient_recvnt` of src/tcpclient.c.
use libsimple.Base.{
  ℕ, zero, suc, ◌-◌, ◌≤◌, ◌<◌, ◌≡◌, ◌≢◌, ◌⊎◌, inl, inr, refl, ap, sym, subst, ◌∙◌, none, some, List,
  [], ◌∷◌, ◌++◌, append-nil, append_assoc, Bytes, length, take, length-take, length-append, arith,
  Option-cases,
}
use libsimple.Base.Int.{pos}
use libsimple.TcpClient.{returned, End, RecvEvent, Recved, recvt, went_on, recvnt_loop, recvnt}

-- What one call of recvt has done: it stays inside the buffer, and has used an event if it reports
-- that bytes have come, whose number it returns.
pub record RecvedPart (evs : List RecvEvent) (len : ℕ) (r : Recved) : Type 0 where
  pub at_most : length r.out ≤ len
  pub progress : went_on r.end ≢ none → (0 < length r.out) × (length r.left < length evs)
  pub used : List RecvEvent
  pub uses : evs ≡ used ++ r.left

pub recvt-RecvedPart : (evs : List RecvEvent) (len : ℕ) → RecvedPart evs len (recvt evs len)
unfolding recvt
recvt-RecvedPart [] len = record {
  at_most = omega arith;
  progress = λ h. absurd (h refl);
  used = [];
  uses = refl;
}
recvt-RecvedPart (RecvEvent.select_timeout ∷ evs) len = record {
  at_most = omega arith;
  progress = λ h. absurd (h refl);
  used = RecvEvent.select_timeout ∷ [];
  uses = refl;
}
recvt-RecvedPart (RecvEvent.select_error ∷ evs) len = record {
  at_most = omega arith;
  progress = λ h. absurd (h refl);
  used = RecvEvent.select_error ∷ [];
  uses = refl;
}
recvt-RecvedPart (RecvEvent.would_block ∷ evs) len =
    let p : RecvedPart evs len (recvt evs len) = recvt-RecvedPart evs len in
    record {
      at_most = p.at_most;
      progress = λ h. omega (arith, p.progress h);
      used = RecvEvent.would_block ∷ p.used;
      uses = ap (RecvEvent.would_block ∷◌) p.uses;
    }
recvt-RecvedPart (RecvEvent.failed ∷ evs) len = record {
  at_most = omega arith;
  progress = λ h. absurd (h refl);
  used = RecvEvent.failed ∷ [];
  uses = refl;
}
recvt-RecvedPart (RecvEvent.delivers from ∷ evs) len = record {
  at_most = omega (arith, length-take len from);
  progress = λ h. (positive (length (take len from)) h, omega arith);
  used = RecvEvent.delivers from ∷ [];
  uses = refl;
}
  where
    positive : (n : ℕ) → went_on (returned (pos n)) ≢ none → 0 < n
    positive zero h = absurd (h refl)
    positive (suc n) h = omega arith

-- An end without progress is the end of recvt, called from some one of the events on, with some room.
abbrev pub EndsRecvt : List RecvEvent → ℕ → End → Type 0
EndsRecvt evs len end =
    (went_on end ≡ none)
    × (used : List RecvEvent) × (then_on : List RecvEvent) × (evs ≡ used ++ then_on)
    × (end ≡ (recvt then_on len).end)

EndsRecvt-before :
    (evs used left : List RecvEvent) (len : ℕ) (end : End)
    → evs ≡ used ++ left
    → EndsRecvt left len end
    → EndsRecvt evs len end
EndsRecvt-before evs used left len end e (stop, more, then_on, e', same) =
    (stop, used ++ more, then_on, e ∙ ap (used ++◌) e' ∙ sym (append_assoc used more then_on), same)

-- The buffer has been filled further: to its end, and the call returns `len`; or not, and it ends as
-- the last call of recvt, which was given the room that is left and has reported no progress.
pub record RecvedSome (len : ℕ) (evs : List RecvEvent) (rest : ℕ) (before : Bytes) (r : Recved)
    : Type 0 where
  pub more : Bytes
  pub extends : r.out ≡ before ++ more
  pub outcome :
      ((length more ≡ rest) × (r.end ≡ returned (pos len)))
      ⊎ ((length more < rest) × EndsRecvt evs (rest - length more) r.end)

recvnt_loop-RecvedSome :
    (len fuel : ℕ) (evs : List RecvEvent) (rest : ℕ) (out : Bytes)
    → length evs < fuel
    → (r : Recved) × (recvnt_loop len fuel evs rest out ≡ some r) × RecvedSome len evs rest out r
unfolding recvnt_loop
recvnt_loop-RecvedSome len zero evs rest out h = absurd (omega arith)
recvnt_loop-RecvedSome len (suc fuel) evs zero out h =
    (_, refl, record { more = []; extends = sym (append-nil out); outcome = inl (refl, refl) })
recvnt_loop-RecvedSome len (suc fuel) evs (suc rest) out h =
    let r = recvt evs (suc rest) in
    let p : RecvedPart evs (suc rest) r = recvt-RecvedPart evs (suc rest) in
    elim (Option-cases (went_on r.end)) [
      | inl stop ↦ (
        record { end = r.end; out = out; left = r.left },
        rw (stop, recvnt_loop),
        record {
          more = [];
          extends = sym (append-nil out);
          outcome =
              inr (omega arith, (stop, [], evs, refl, ap (λ n. (recvt evs n).end) (omega arith)));
        },
      )
      | inr (n, on) ↦
          let some_n : went_on r.end ≢ none = λ e. cc (on, e) in
          let (r', e', q) =
            recvnt_loop-RecvedSome len fuel r.left (suc rest - length r.out) (out ++ r.out)
              (omega (arith, p.progress some_n)) in
          (
            r',
            rw (on, recvnt_loop) e',
            record {
              more = r.out ++ q.more;
              extends = q.extends ∙ append_assoc out r.out q.more;
              outcome = elim q.outcome [
                | inl (all, e) ↦ inl (omega (arith, p.at_most, length-append r.out q.more), e)
                | inr (few, e) ↦ inr (
                  omega (arith, p.at_most, length-append r.out q.more),
                  subst (λ n. EndsRecvt evs n r'.end)
                      (omega (arith, p.at_most, length-append r.out q.more))
                      (EndsRecvt-before evs p.used r.left _ r'.end p.uses e),
                )
              ];
            },
          )
    ]

-- Whatever the socket does, `simple_tcpclient_recvnt` ends or waits for it (the fuel is enough), and
-- puts no more than `len` bytes into the buffer. Either `len` have come, and it returns `len`; or
-- fewer, and it ends (returns, or waits) as recvt does, called from some one of the events on, with
-- the room that is left, which is not by a positive result.
pub recvnt-RecvedSome :
    (evs : List RecvEvent) (len : ℕ)
    → (r : Recved) × (recvnt evs len ≡ some r)
      × (((length r.out ≡ len) × (r.end ≡ returned (pos len)))
          ⊎ ((length r.out < len) × EndsRecvt evs (len - length r.out) r.end))
unfolding recvnt
recvnt-RecvedSome evs len =
    let (r, e, q) = recvnt_loop-RecvedSome len (suc (length evs)) evs len [] (omega arith) in
    let same : length r.out ≡ length q.more = ap length q.extends in
    (
      r,
      e,
      elim q.outcome [
        | inl (all, ended) ↦ inl (omega arith, ended)
        | inr (few, ended) ↦
            inr (omega arith, subst (λ k. EndsRecvt evs (len - k) r.end) (sym same) ended)
      ],
    )
