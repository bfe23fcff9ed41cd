-- ===== src/HttpParser/Loop.antt =====
-- The loop of `httpc_parser_parse` against the bytes of its input, one at a time.
use libsimple.Base.{
  ℕ, zero, suc, ◌+◌, ◌-◌, ◌<◌, ◌≡◌, refl, ap, subst, sym, ◌∙◌, Bool, true, false, [], ◌∷◌, Bytes,
  length, length-take, length-drop, take, drop, arith,
}
use libsimple.HttpMessage.{
  HttpParserState, http_unknown, http_startline, http_headers, http_body, http_complete, http_cr,
  http_crlf, http_lsw, content_length, get_value,
}
use libsimple.HttpParser.{Session, getmsglen, append_to_body, byte_in, turn, loop, is_complete}
use libsimple.HttpParser.Inv.{IsAwaiting, StateInv, Inv}
use libsimple.HttpParser.Steps.{append_to_body-Inv, byte_in-Inv}
use libsimple.Outcome.{Outcome, done, ◌>>=◌, >>=_assoc, bind-cong}
use libsimple.HttpParser.Feed.{feed, feed_byte-byte_in, feed_complete}
use libsimple.HttpParser.Chunks.{feed-chunk, body_step-awaiting}

-- The loop with a given fuel does what the bytes do, on every input shorter than the fuel.
abbrev pub Agrees : ℕ → Type 0
Agrees fuel =
    (s : Session) (from : Bytes) (used : ℕ)
    → Inv s
    → length from < fuel
    → loop fuel s from used ≡ feed s from used

-- One turn of the loop, by the state that the session is in.
loop-turn :
    (st : HttpParserState) (fuel : ℕ) (s : Session) (c : ℕ) (from : Bytes) (used : ℕ)
    → s.pd.state ≡ st
    → is_complete st ≡ false
    → loop (suc fuel) s (c ∷ from) used
      ≡ (turn st s c from >>= λ r. loop fuel r.0 (drop r.1 (c ∷ from)) (used + r.1))
unfolding loop
loop-turn st fuel s c from used e h =
    ap (λ st'. by_test (is_complete st') st') e ∙ ap (λ b. by_test b st) h
  where
    by_test : Bool → HttpParserState → Outcome (Session × ℕ)
    by_test b st' = elim b [
      | true ↦ done (s, used)
      | false ↦ turn st' s c from >>= λ r. loop fuel r.0 (drop r.1 (c ∷ from)) (used + r.1)
    ]

loop_complete :
    (fuel : ℕ) (s : Session) (c : ℕ) (from : Bytes) (used : ℕ)
    → is_complete s.pd.state ≡ true
    → loop (suc fuel) s (c ∷ from) used ≡ done (s, used)
unfolding loop
loop_complete fuel s c from used e = rw (e, loop)

-- A turn that hands one byte to appendByte.
agree_byte :
    (st : HttpParserState) (fuel : ℕ)
    → Agrees fuel
    → (s : Session) (c : ℕ) (from : Bytes) (used : ℕ) → Inv s
    → length from < fuel
    → s.pd.state ≡ st
    → is_complete st ≡ false
    → turn st s c from ≡ (byte_in st s c >>= λ s'. done (s', 1))
    → loop (suc fuel) s (c ∷ from) used ≡ feed s (c ∷ from) used
unfolding feed
agree_byte st fuel ih s c from used v l e h t =
    loop-turn st fuel s c from used e h
    ∙ ap (λ m. m >>= λ r. loop fuel r.0 (drop r.1 (c ∷ from)) (used + r.1)) t
    ∙ >>=_assoc (byte_in st s c) (λ s'. done (s', 1)) _
    ∙ bind-cong Inv (byte_in st s c) (λ s'. loop fuel s' from (used + 1))
        (λ s'. feed s' from (used + 1)) (byte_in-Inv st s c e v)
        (λ s' v'. ih s' from (used + 1) v' l)
    ∙ sym (>>=_assoc (byte_in st s c) (λ s'. done (s', 1)) (λ r. feed r.0 from (used + r.1)))
    ∙ ap (λ m. m >>= λ r. feed r.0 from (used + r.1)) (sym (feed_byte-byte_in st s c e h))

-- A turn that takes a chunk of the body.
agree_chunk :
    (fuel : ℕ)
    → Agrees fuel
    → (s : Session) (c : ℕ) (from : Bytes) (used : ℕ) → Inv s
    → length from < fuel
    → s.pd.state ≡ http_body
    → loop (suc fuel) s (c ∷ from) used ≡ feed s (c ∷ from) used
unfolding turn getmsglen
agree_chunk fuel ih s c from used v l e =
    let w : IsAwaiting s.msg = subst (λ st. StateInv st s) e v.by_state in
    let (k, turned, k_is) =
      body_step-awaiting (get_value s.msg content_length) s (c ∷ from) w.total w.announced
        w.missing in
    let pred_k : k ≡ suc (k - 1) = omega (arith, w.missing) in
    let chunk = take k (c ∷ from) in
    let chunk_length : length chunk ≡ k = omega (arith, length-take k (c ∷ from)) in
    let v' : Inv (append_to_body s chunk) =
      append_to_body-Inv s chunk w e v (omega (arith, w.missing)) in
    loop-turn http_body fuel s c from used e refl
    ∙ ap (λ m. m >>= λ r. loop fuel r.0 (drop r.1 (c ∷ from)) (used + r.1)) turned
    ∙ ih (append_to_body s chunk) (drop k (c ∷ from)) (used + k) v'
        (omega (arith, length-drop k (c ∷ from)))
    ∙ sym (
        subst
          (λ j.
            feed s (c ∷ from) used
            ≡ feed (append_to_body s (take j (c ∷ from))) (drop j (c ∷ from)) (used + j))
          (sym pred_k)
          (feed-chunk (k - 1) (c ∷ from) s used w e (omega (arith, w.missing)) (omega arith)))

agree_state :
    (st : HttpParserState) (fuel : ℕ)
    → Agrees fuel
    → (s : Session) (c : ℕ) (from : Bytes) (used : ℕ) → Inv s
    → length from < fuel
    → s.pd.state ≡ st
    → loop (suc fuel) s (c ∷ from) used ≡ feed s (c ∷ from) used
unfolding turn
agree_state http_body fuel ih s c from used v l e = agree_chunk fuel ih s c from used v l e
agree_state http_complete fuel ih s c from used v l e =
    loop_complete fuel s c from used (ap is_complete e)
    ∙ sym (feed_complete (c ∷ from) s used (ap is_complete e))
agree_state http_unknown fuel ih s c from used v l e =
    agree_byte http_unknown fuel ih s c from used v l e refl refl
agree_state http_startline fuel ih s c from used v l e =
    agree_byte http_startline fuel ih s c from used v l e refl refl
agree_state http_headers fuel ih s c from used v l e =
    agree_byte http_headers fuel ih s c from used v l e refl refl
agree_state http_cr fuel ih s c from used v l e =
    agree_byte http_cr fuel ih s c from used v l e refl refl
agree_state http_crlf fuel ih s c from used v l e =
    agree_byte http_crlf fuel ih s c from used v l e refl refl
agree_state http_lsw fuel ih s c from used v l e =
    agree_byte http_lsw fuel ih s c from used v l e refl refl

pub loop-feed : (fuel : ℕ) → Agrees fuel
unfolding loop feed
loop-feed zero s from used v l = absurd (omega arith)
loop-feed (suc fuel) s [] used v l = refl
loop-feed (suc fuel) s (c ∷ from) used v l =
    agree_state s.pd.state fuel (loop-feed fuel) s c from used v (omega arith) refl
