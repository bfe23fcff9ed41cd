-- ===== src/HttpParser/Incremental.antt =====
-- `httpc_parser_parse` as a client calls it, again and again with what has arrived.
use libsimple.Base.{
  ℕ, suc, ◌+◌, ◌≡◌, refl, ap, subst, sym, ◌∙◌, Option, none, some, ◌++◌, Bytes, length, arith,
}
use libsimple.HttpMessage.{HttpParserState, ParserData, HttpMessage}
use libsimple.HttpParser.{Session, loop, resume, saved_in, parse}
use libsimple.HttpParser.Feed.{feed, feed-append, feed_from, feed-Inv}
use libsimple.HttpParser.Inv.{Inv, fresh-Inv}
use libsimple.HttpParser.Loop.{loop-feed}
use libsimple.Outcome.{Outcome, done, ◌>>=◌, Holds, >>=_assoc, bind-cong}

-- A message that the parser has returned, or none: what may be passed back to it.
abbrev pub IsSaved : Option HttpMessage → Type 0
IsSaved none = Unit
IsSaved (some msg) =
    (pd : ParserData) × (msg.pri_data ≡ some pd)
    × Inv (record { msg = record msg { pri_data = none }; pd = pd })

pub resume-Inv :
    (saved : Option HttpMessage) (junk : HttpParserState)
    → IsSaved saved
    → Holds Inv (resume saved junk)
unfolding resume
resume-Inv none junk v = fresh-Inv junk
resume-Inv (some msg) junk (pd, e, v) = rw e v

-- The loop as the bytes of the input, one at a time.
pub parse-feed :
    (saved : Option HttpMessage) (junk : HttpParserState) (from : Bytes)
    → IsSaved saved
    → parse saved junk from
      ≡ (resume saved junk >>= λ s. feed s from 0 >>= λ r. done (saved_in r.0, r.1))
unfolding parse
parse-feed saved junk from v =
    bind-cong Inv (resume saved junk)
      (λ s. loop (suc (length from)) s from 0 >>= λ r. done (saved_in r.0, r.1))
      (λ s. feed s from 0 >>= λ r. done (saved_in r.0, r.1)) (resume-Inv saved junk v)
      (λ s v'.
        ap (λ m. m >>= λ r. done (saved_in r.0, r.1))
          (loop-feed (suc (length from)) s from 0 v' (omega arith)))

-- What the parser has put into the message is what it finds there.
pub saved_in-IsSaved : (s : Session) → Inv s → IsSaved (some (saved_in s))
saved_in-IsSaved s v = (
  s.pd,
  refl,
  subst (λ o. Inv (record { msg = record s.msg { pri_data = o }; pd = s.pd })) v.detached v,
)

resume-saved_in :
    (s : Session) (junk : HttpParserState) → Inv s → resume (some (saved_in s)) junk ≡ done s
unfolding resume
resume-saved_in s junk v =
    ap (λ o. done (record { msg = record s.msg { pri_data = o }; pd = s.pd })) (sym v.detached)

parse_again :
    (s : Session) (junk : HttpParserState) (from : Bytes)
    → Inv s
    → parse (some (saved_in s)) junk from ≡ (feed s from 0 >>= λ r. done (saved_in r.0, r.1))
parse_again s junk from v =
    parse-feed (some (saved_in s)) junk from (saved_in-IsSaved s v)
    ∙ ap (λ m. m >>= λ s'. feed s' from 0 >>= λ r. done (saved_in r.0, r.1))
        (resume-saved_in s junk v)

-- The second call, after a first one that has used some bytes.
abbrev pub then_parse : HttpParserState → Bytes → HttpMessage × ℕ → Outcome (HttpMessage × ℕ)
then_parse junk from r = parse (some r.0) junk from >>= λ q. done (q.0, r.1 + q.1)

abbrev returned : Session × ℕ → Outcome (HttpMessage × ℕ)
returned r = done (saved_in r.0, r.1)

feed_then :
    (junk : HttpParserState) (ys : Bytes) (s : Session) (used : ℕ)
    → Inv s
    → feed s ys used >>= returned ≡ then_parse junk ys (saved_in s, used)
feed_then junk ys s used v =
    ap (λ m. m >>= returned) (feed_from ys s used)
    ∙ >>=_assoc (feed s ys 0) (λ q. done (q.0, used + q.1)) returned
    ∙ sym (>>=_assoc (feed s ys 0) returned (λ q. done (q.0, used + q.1)))
    ∙ ap (λ m. m >>= λ q. done (q.0, used + q.1)) (sym (parse_again s junk ys v))

feed_in_two :
    (junk : HttpParserState) (xs ys : Bytes) (s : Session)
    → Inv s
    → feed s (xs ++ ys) 0 >>= returned ≡ feed s xs 0 >>= returned >>= then_parse junk ys
feed_in_two junk xs ys s v =
    ap (λ m. m >>= returned) (feed-append xs s ys 0)
    ∙ >>=_assoc (feed s xs 0) (λ r. feed r.0 ys r.1) returned
    ∙ bind-cong (λ r. Inv r.0) (feed s xs 0) (λ r. feed r.0 ys r.1 >>= returned)
        (λ r. then_parse junk ys (saved_in r.0, r.1)) (feed-Inv xs s 0 v)
        (λ r v'. feed_then junk ys r.0 r.1 v')
    ∙ sym (>>=_assoc (feed s xs 0) returned (then_parse junk ys))

-- However the input is cut in two, `httpc_parser_parse` does the same: one call with all of it gives
-- the message and the sum of the counts of a call with the first part and one, on the message so
-- obtained, with the second; where one has undefined behaviour so has the other. What was in
-- uninitialised memory plays no part.
pub parse-append :
    (saved : Option HttpMessage) (junk junk' : HttpParserState) (xs ys : Bytes)
    → IsSaved saved
    → parse saved junk (xs ++ ys) ≡ parse saved junk xs >>= then_parse junk' ys
parse-append saved junk junk' xs ys v =
    parse-feed saved junk (xs ++ ys) v
    ∙ bind-cong Inv (resume saved junk) (λ s. feed s (xs ++ ys) 0 >>= returned)
        (λ s. feed s xs 0 >>= returned >>= then_parse junk' ys) (resume-Inv saved junk v)
        (λ s v'. feed_in_two junk' xs ys s v')
    ∙ sym (>>=_assoc (resume saved junk) (λ s. feed s xs 0 >>= returned) (then_parse junk' ys))
    ∙ ap (λ m. m >>= then_parse junk' ys) (sym (parse-feed saved junk xs v))
