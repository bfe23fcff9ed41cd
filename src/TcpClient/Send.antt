-- ===== src/TcpClient/Send.antt =====
-- `simple_tcpclient_sendt` and `simple_tcpclient_sendnt` of src/tcpclient.c.
use libsimple.Base.{
  ℕ, zero, suc, ◌+◌, ◌≤◌, ◌<◌, ◌≡◌, ◌≢◌, ◌⊎◌, inl, inr, refl, ap, sym, subst, ◌∙◌, none, some, List,
  [], ◌∷◌, ◌++◌, append-nil, append_assoc, Bytes, length, take, drop, length-drop, take-add,
  drop-drop, arith, Option-cases,
}
use libsimple.Base.Int.{pos}
use libsimple.TcpClient.{
  returned, End, SendEvent, select_timeout, select_error, would_block, failed, accepts, Sent, sendt,
  went_on, sendnt_loop, sendnt,
}

-- What one call of sendt has done: what it reports is what went to `send`, no more than there was,
-- and it has used an event if it reports anything.
pub record SentPart (evs : List SendEvent) (from : Bytes) (r : Sent) : Type 0 where
  pub prefix : r.wire ≡ take r.sent from
  pub at_most : r.sent ≤ length from
  pub progress : went_on r.end ≢ none → (0 < r.sent) × (length r.left < length evs)
  pub used : List SendEvent
  pub uses : evs ≡ used ++ r.left

pub sendt-SentPart : (evs : List SendEvent) (from : Bytes) → SentPart evs from (sendt evs from)
unfolding sendt
sendt-SentPart [] from = record {
  prefix = refl;
  at_most = omega arith;
  progress = λ h. absurd (h refl);
  used = [];
  uses = refl;
}
sendt-SentPart (select_timeout ∷ evs) from = record {
  prefix = refl;
  at_most = omega arith;
  progress = λ h. absurd (h refl);
  used = select_timeout ∷ [];
  uses = refl;
}
sendt-SentPart (select_error ∷ evs) from = record {
  prefix = refl;
  at_most = omega arith;
  progress = λ h. absurd (h refl);
  used = select_error ∷ [];
  uses = refl;
}
sendt-SentPart (would_block ∷ evs) from =
    let p : SentPart evs from (sendt evs from) = sendt-SentPart evs from in
    record {
      prefix = p.prefix;
      at_most = p.at_most;
      progress = λ h. omega (arith, p.progress h);
      used = would_block ∷ p.used;
      uses = ap (would_block ∷◌) p.uses;
    }
sendt-SentPart (failed ∷ evs) from = record {
  prefix = refl;
  at_most = omega arith;
  progress = λ h. absurd (h refl);
  used = failed ∷ [];
  uses = refl;
}
sendt-SentPart (accepts n ∷ evs) from = record {
  prefix = refl;
  at_most = omega arith;
  progress = λ h. ground arith;
  used = accepts n ∷ [];
  uses = refl;
}

-- An end without progress is the end of sendt, called from some one of the events on, with some bytes.
abbrev pub EndsSendt : List SendEvent → Bytes → End → Type 0
EndsSendt evs from end =
    (went_on end ≡ none)
    × (used : List SendEvent) × (then_on : List SendEvent) × (evs ≡ used ++ then_on)
    × (end ≡ (sendt then_on from).end)

EndsSendt-before :
    (evs used left : List SendEvent) (from : Bytes) (end : End)
    → evs ≡ used ++ left
    → EndsSendt left from end
    → EndsSendt evs from end
EndsSendt-before evs used left from end e (stop, more, then_on, e', same) =
    (stop, used ++ more, then_on, e ∙ ap (used ++◌) e' ∙ sym (append_assoc used more then_on), same)

-- A prefix of the bytes has been sent: all of them, and the call returns `len`; or fewer, and it ends
-- as the last call of sendt, which was given the others and has reported no progress.
pub record SentSome (len : ℕ) (evs : List SendEvent) (rest : Bytes) (before : ℕ) (wire : Bytes)
    (r : Sent) : Type 0 where
  pub more : ℕ
  pub counted : r.sent ≡ before + more
  pub prefix : r.wire ≡ wire ++ take more rest
  pub outcome :
      ((more ≡ length rest) × (r.end ≡ returned (pos len)))
      ⊎ ((more < length rest) × EndsSendt evs (drop more rest) r.end)

rejoin :
    (evs : List SendEvent) (from wire : Bytes) (r : Sent) (p : SentPart evs from r) (r' : Sent)
    (more : ℕ)
    → r'.wire ≡ (wire ++ r.wire) ++ take more (drop r.sent from)
    → r'.wire ≡ wire ++ take (r.sent + more) from
rejoin evs from wire r p r' more e =
    e
    ∙ append_assoc wire r.wire (take more (drop r.sent from))
    ∙ ap (wire ++◌)
        (ap (◌++ take more (drop r.sent from)) p.prefix ∙ sym (take-add r.sent more from))

sendnt_loop-SentSome :
    (len fuel : ℕ) (evs : List SendEvent) (rest : Bytes) (sent : ℕ) (wire : Bytes)
    → length evs < fuel
    → (r : Sent) × (sendnt_loop len fuel evs rest sent wire ≡ some r)
      × SentSome len evs rest sent wire r
unfolding sendnt_loop
sendnt_loop-SentSome len zero evs rest sent wire h = absurd (omega arith)
sendnt_loop-SentSome len (suc fuel) evs [] sent wire h = (
  _,
  refl,
  record {
    more = 0;
    counted = omega arith;
    prefix = sym (append-nil wire);
    outcome = inl (refl, refl);
  },
)
sendnt_loop-SentSome len (suc fuel) evs (c ∷ rest) sent wire h =
    let r = sendt evs (c ∷ rest) in
    let p : SentPart evs (c ∷ rest) r = sendt-SentPart evs (c ∷ rest) in
    elim (Option-cases (went_on r.end)) [
      | inl stop ↦ (
        record { end = r.end; sent = sent; wire = wire; left = r.left },
        rw (stop, sendnt_loop),
        record {
          more = 0;
          counted = omega arith;
          prefix = sym (append-nil wire);
          outcome = inr (omega arith, (stop, [], evs, refl, refl));
        },
      )
      | inr (n, on) ↦
          let some_n : went_on r.end ≢ none = λ e. cc (on, e) in
          let (r', e', q) =
            sendnt_loop-SentSome len fuel r.left (drop r.sent (c ∷ rest)) (sent + r.sent)
              (wire ++ r.wire) (omega (arith, p.progress some_n)) in
          (
            r',
            rw (on, sendnt_loop) e',
            record {
              more = r.sent + q.more;
              counted = omega (arith, q.counted);
              prefix = rejoin evs (c ∷ rest) wire r p r' q.more q.prefix;
              outcome = elim q.outcome [
                | inl (all, e) ↦ inl (omega (arith, p.at_most, length-drop r.sent (c ∷ rest)), e)
                | inr (few, e) ↦ inr (
                  omega (arith, p.at_most, length-drop r.sent (c ∷ rest)),
                  subst (λ l. EndsSendt evs l r'.end) (drop-drop r.sent q.more (c ∷ rest))
                      (EndsSendt-before evs p.used r.left _ r'.end p.uses e),
                )
              ];
            },
          )
    ]

-- Whatever the socket does, `simple_tcpclient_sendnt` ends or waits for it (the fuel is enough), and
-- what has gone to `send` is the first `*sent` bytes of the data, in order. Either all of them have,
-- and it returns their number; or fewer, and it ends (returns, or waits) as sendt does, called from
-- some one of the events on, with the bytes that are left, which is not by a positive result.
pub sendnt-SentSome :
    (evs : List SendEvent) (from : Bytes)
    → (r : Sent) × (sendnt evs from ≡ some r)
      × (r.wire ≡ take r.sent from)
      × (((r.sent ≡ length from) × (r.end ≡ returned (pos (length from))))
          ⊎ ((r.sent < length from) × EndsSendt evs (drop r.sent from) r.end))
unfolding sendnt
sendnt-SentSome evs from =
    let (r, e, q) =
      sendnt_loop-SentSome (length from) (suc (length evs)) evs from 0 [] (omega arith) in
    let total : r.sent ≡ q.more = omega (arith, q.counted) in
    (
      r,
      e,
      q.prefix ∙ ap (λ k. take k from) (sym total),
      elim q.outcome [
        | inl (all, ended) ↦ inl (omega arith, ended)
        | inr (few, ended) ↦
            inr (omega arith, subst (λ k. EndsSendt evs (drop k from) r.end) (sym total) ended)
      ],
    )
