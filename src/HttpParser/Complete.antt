-- ===== src/HttpParser/Complete.antt =====
-- What one call of `httpc_parser_parse` returns: how much it uses, and when it stops early.
use libsimple.Base.{
  ℕ, ◌+◌, ◌≤◌, ◌≡◌, ◌⊎◌, refl, ap, subst, sym, ◌∙◌, true, false, Option, some, [], ◌∷◌, Bytes,
  length, arith, Bool-cases, inl, inr,
}
use libsimple.HttpMessage.{
  HttpParserState, http_unknown, http_startline, http_headers, http_body, http_complete, http_cr,
  http_crlf, http_lsw, HttpMessage, get_value,
}
use libsimple.HttpMessage.Encode.{IsSized}
use libsimple.HttpMessage.Headers.{IsCounted}
use libsimple.HttpParser.{
  Session, byte_in, is_complete, resume, saved_in, parse, message_state, getmsglen,
}
use libsimple.HttpParser.Feed.{feed, feed_byte-byte_in, feed_complete}
use libsimple.HttpParser.Incremental.{IsSaved, resume-Inv, parse-feed, saved_in-IsSaved}
use libsimple.HttpParser.Inv.{Inv, IsWhole, StateInv}
use libsimple.HttpParser.Steps.{byte_in-Inv}
use libsimple.Outcome.{done, ◌>>=◌, Holds, Holds-bind, Holds-map, >>=_assoc}

-- All of the input has been used, or the message is complete.
record Used (from : Bytes) (used : ℕ) (r : Session × ℕ) : Type 0 where
  pub inv : Inv r.0
  pub at_most : r.1 ≤ used + length from
  pub all_or_complete : (r.1 ≡ used + length from) ⊎ (is_complete r.0.pd.state ≡ true)

feed-next :
    (s : Session) (c : ℕ) (from : Bytes) (used : ℕ)
    → is_complete s.pd.state ≡ false
    → feed s (c ∷ from) used ≡ (byte_in s.pd.state s c >>= λ s'. feed s' from (used + 1))
unfolding feed
feed-next s c from used e =
    ap (λ m. m >>= λ r. feed r.0 from (used + r.1)) (feed_byte-byte_in s.pd.state s c refl e)
    ∙ >>=_assoc (byte_in s.pd.state s c) (λ s'. done (s', 1)) (λ r. feed r.0 from (used + r.1))

feed-Used :
    (from : Bytes) (s : Session) (used : ℕ) → Inv s → Holds (Used from used) (feed s from used)
unfolding feed
feed-Used [] s used v = record {
  inv = v;
  at_most = omega arith;
  all_or_complete = inl (omega arith);
}
feed-Used (c ∷ from) s used v = elim (Bool-cases (is_complete s.pd.state)) [
  | inl whole ↦
      subst (Holds (Used (c ∷ from) used)) (sym (feed_complete (c ∷ from) s used whole))
        (record { inv = v; at_most = omega arith; all_or_complete = inr whole })
  | inr part ↦ subst (Holds (Used (c ∷ from) used)) (sym (feed-next s c from used part)) (
      Holds-bind Inv (Used (c ∷ from) used) (byte_in s.pd.state s c) (λ s'. feed s' from (used + 1))
        (byte_in-Inv s.pd.state s c refl v)
        (λ s' v'.
          Holds-map (Used from (used + 1)) (Used (c ∷ from) used) (feed s' from (used + 1))
            (λ r u. one_more r u) (feed-Used from s' (used + 1) v')))
]
  where
    one_more : (r : Session × ℕ) → Used from (used + 1) r → Used (c ∷ from) used r
    one_more r u = record {
      inv = u.inv;
      at_most = omega (arith, u.at_most);
      all_or_complete = ground (arith, u.all_or_complete);
    }

-- A message that may be passed back, with what the count says of it.
pub record Parsed (from : Bytes) (r : HttpMessage × ℕ) : Type 0 where
  pub saved : IsSaved (some r.0)
  pub sized : IsSized r.0
  pub counted : IsCounted r.0
  pub at_most : r.1 ≤ length from
  pub stops : (r.1 ≡ length from) ⊎ (message_state (some r.0) ≡ http_complete)
  pub whole : message_state (some r.0) ≡ http_complete → IsWhole r.0

complete_state : (st : HttpParserState) → is_complete st ≡ true → st ≡ http_complete
complete_state http_complete e = refl
complete_state http_unknown e = cc
complete_state http_startline e = cc
complete_state http_headers e = cc
complete_state http_body e = cc
complete_state http_cr e = cc
complete_state http_crlf e = cc
complete_state http_lsw e = cc

Used-Parsed : (from : Bytes) (r : Session × ℕ) → Used from 0 r → Parsed from (saved_in r.0, r.1)
unfolding message_state
Used-Parsed from (s, k) u = record {
  saved = saved_in-IsSaved s u.inv;
  sized = u.inv.sized;
  counted = u.inv.counted;
  at_most = omega (arith, u.at_most);
  stops = elim u.all_or_complete [
    | inl all ↦ inl (omega arith)
    | inr whole ↦ inr (complete_state s.pd.state whole)
  ];
  whole = λ e. unfold getmsglen get_value in (subst (λ st. StateInv st s) e u.inv.by_state);
}

-- A call of `httpc_parser_parse` on a new message, or on one that it has returned before, ends.
-- Unless the input makes its behaviour undefined, it returns a message that may be passed back,
-- whose `bodylen` and `header_cnt` are right; it uses no more than the input, and all of it if the
-- message is not complete; and a complete message has a body of the announced length, or none if
-- no positive length is announced.
pub parse-Parsed :
    (saved : Option HttpMessage) (junk : HttpParserState) (from : Bytes)
    → IsSaved saved
    → Holds (Parsed from) (parse saved junk from)
parse-Parsed saved junk from v = subst (Holds (Parsed from)) (sym (parse-feed saved junk from v)) (
    Holds-bind Inv (Parsed from) (resume saved junk)
      (λ s. feed s from 0 >>= λ r. done (saved_in r.0, r.1)) (resume-Inv saved junk v)
      (λ s v'.
        Holds-bind (Used from 0) (Parsed from) (feed s from 0) (λ r. done (saved_in r.0, r.1))
          (feed-Used from s 0 v') (Used-Parsed from)))
