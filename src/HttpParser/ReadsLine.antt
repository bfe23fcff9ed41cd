-- ===== src/HttpParser/ReadsLine.antt =====
-- From one line of the input to the next, to the empty line and through the body.
use libsimple.Base.{
  ℕ, ◌+◌, ◌≡◌, ◌≢◌, refl, ap, ap₂, ◌∙◌, subst, Bool, true, false, some, [], ◌∷◌, ◌++◌, append_assoc,
  Bytes, length, length-append, arith, if◌then◌else◌,
}
use libsimple.Base.Int.{pos, is_positive, eq_ℕ}
use libsimple.Clib.Text.{Lacks}
use libsimple.HttpMessage.{
  HttpMessage, HttpParserState, http_headers, http_cr, http_crlf, http_body, http_complete, crlf,
  body_bytes, get_value,
}
use libsimple.HttpParser.{
  Session, append, isspace, byte_in, byte_after_cr, byte_after_crlf, starts_crlf, getmsglen,
  appended, go_to, append_to_body,
}
use libsimple.HttpParser.Inv.{IsLineState}
use libsimple.HttpParser.Reads.{
  Goes, Goes-append, Reaches-byte, InLine, AfterCr, AfterCrlf, Ready, line_bytes, line_cr, line_lf,
}
use libsimple.Outcome.{done, ◌>>=◌}

not_empty_line : (c : ℕ) (line : Bytes) → c ≢ b'\r' → starts_crlf (c ∷ line) ≡ false
unfolding starts_crlf
not_empty_line c [] n = refl
not_empty_line c (d ∷ line) n = ground arith

-- The rest of a line, of which some bytes have been read, to its end.
pub line_whole :
    (st : HttpParserState)
    → IsLineState st
    → (c : ℕ) (line xs : Bytes) (msg : HttpMessage) (s : Session) → c ≢ b'\r'
    → Lacks b'\r' xs
    → InLine st (c ∷ line) msg s
    → Goes s (xs ++ crlf) (AfterCrlf st (((c ∷ (line ++ xs)) ++ (b'\r' ∷ [])) ++ (b'\n' ∷ [])) msg)
line_whole st l c line xs msg s n o v =
    let read = c ∷ (line ++ xs) in
    Goes-append s xs crlf (InLine st read msg)
      (AfterCrlf st ((read ++ (b'\r' ∷ [])) ++ (b'\n' ∷ [])) msg)
      (line_bytes st l xs (c ∷ line) msg s o v)
      (λ t w.
        Goes-append t (b'\r' ∷ []) (b'\n' ∷ []) (AfterCr st (read ++ (b'\r' ∷ [])) msg)
          (AfterCrlf st ((read ++ (b'\r' ∷ [])) ++ (b'\n' ∷ [])) msg) (line_cr st l read msg t w)
          (λ u x.
            line_lf st (read ++ (b'\r' ∷ [])) msg u
              (not_empty_line c (((line ++ xs) ++ (b'\r' ∷ [])) ++ (b'\n' ∷ [])) n) x))

-- the state that starts the next line
abbrev restarted : HttpParserState → ℕ → Session → Session
restarted st c s = go_to st (appended c (record s { pd = record s.pd { linedata = [] } }))

-- The first byte of a header line.
pub Ready-byte :
    (msg : HttpMessage) (s : Session) (c : ℕ)
    → isspace c ≡ false
    → Ready msg s
    → Goes s (c ∷ []) (InLine http_headers (c ∷ []) msg)
unfolding byte_in byte_after_crlf append
Ready-byte msg s c e v = record {
  to = restarted http_headers c v.finished;
  reaches =
      Reaches-byte http_crlf s c (restarted http_headers c v.finished) v.state_is refl
        (ground (arith, e, v.finishes));
  holds = record { state_is = refl; line_is = refl; msg_is = v.msg_is };
}

-- Behind the CR of the empty line.
pub record Ending (msg : HttpMessage) (s : Session) : Type 0 where
  pub state_is : s.pd.state ≡ http_cr
  pub line_is : s.pd.linedata ≡ b'\r' ∷ []
  pub msg_is : s.msg ≡ msg

pub Ready-cr : (msg : HttpMessage) (s : Session) → Ready msg s → Goes s (b'\r' ∷ []) (Ending msg)
unfolding byte_in byte_after_crlf append
Ready-cr msg s v = record {
  to = restarted http_cr b'\r' v.finished;
  reaches =
      Reaches-byte http_crlf s b'\r' (restarted http_cr b'\r' v.finished) v.state_is refl
        (ap (λ m. m >>= λ t. done (restarted http_cr b'\r' t)) v.finishes);
  holds = record { state_is = refl; line_is = refl; msg_is = v.msg_is };
}

pub record InState (st : HttpParserState) (msg : HttpMessage) (s : Session) : Type 0 where
  pub state_is : s.pd.state ≡ st
  pub msg_is : s.msg ≡ msg

abbrev pub body_state : Bool → HttpParserState
body_state true = http_body
body_state false = http_complete

pub Ending-lf :
    (msg : HttpMessage) (s : Session)
    → Ending msg s
    → Goes s (b'\n' ∷ []) (InState (body_state (is_positive (getmsglen msg))) msg)
unfolding byte_in byte_after_cr append starts_crlf
Ending-lf msg s v =
    let to = go_to (body_state (is_positive (getmsglen msg))) (appended b'\n' s) in
    record {
      to = to;
      reaches = Reaches-byte http_cr s b'\n' to v.state_is refl (
          ap done
            (step (is_positive (getmsglen msg)) (ap (λ m. is_positive (getmsglen m)) v.msg_is)));
      holds = record { state_is = refl; msg_is = v.msg_is };
    }
  where
    empty : starts_crlf (s.pd.linedata ++ (b'\n' ∷ [])) ≡ true
    empty = ap (λ t. starts_crlf (t ++ (b'\n' ∷ []))) v.line_is

    step :
        (b : Bool)
        → is_positive (getmsglen s.msg) ≡ b
        → byte_after_cr s b'\n' ≡ go_to (body_state b) (appended b'\n' s)
    step true e = rw (empty, e)
    step false e = rw (empty, e)

-- A message with some more bytes of its body.
abbrev pub with_body : HttpMessage → Bytes → HttpMessage
with_body msg xs = record msg {
  body = some (body_bytes msg.body ++ xs);
  bodylen = msg.bodylen + length xs;
}

-- One byte of the body, by whether it is the last one.
body_byte :
    (msg : HttpMessage) (s : Session) (c : ℕ) (last : Bool)
    → eq_ℕ (getmsglen msg) (msg.bodylen + 1) ≡ last
    → InState http_body msg s
    → Goes s (c ∷ []) (InState (if last then http_complete else http_body) (with_body msg (c ∷ [])))
unfolding byte_in append_to_body
body_byte msg s c last e v =
    let s' = record s { msg = with_body s.msg (c ∷ []) } in
    let to = go_to (if last then http_complete else http_body) s' in
    record {
      to = to;
      reaches =
          Reaches-byte http_body s c to v.state_is refl
            (ap done (step last (ap (λ m. eq_ℕ (getmsglen m) (m.bodylen + 1)) v.msg_is ∙ e)));
      holds = record { state_is = refl; msg_is = ap (λ m. with_body m (c ∷ [])) v.msg_is };
    }
  where
    step :
        (b : Bool)
        → eq_ℕ (getmsglen s.msg) (s.msg.bodylen + 1) ≡ b
        → append_to_body s (c ∷ [])
          ≡ go_to
              (if b then http_complete else http_body)
              (record s { msg = with_body s.msg (c ∷ []) })
    step true e' = rw e'
    step false e' =
        rw e' (ap (λ st. go_to st (record s { msg = with_body s.msg (c ∷ []) })) v.state_is)

with_body-with_body :
    (msg : HttpMessage) (xs ys : Bytes) → with_body (with_body msg xs) ys ≡ with_body msg (xs ++ ys)
with_body-with_body msg xs ys =
    ap₂ (λ b n. record msg { body = some b; bodylen = n })
      (append_assoc (body_bytes msg.body) xs ys) (omega (arith, length-append xs ys))

-- All that is missing of the body.
pub body_whole :
    (c : ℕ) (xs : Bytes) (msg : HttpMessage) (s : Session)
    → getmsglen msg ≡ pos (msg.bodylen + length (c ∷ xs))
    → InState http_body msg s
    → Goes s (c ∷ xs) (InState http_complete (with_body msg (c ∷ xs)))
body_whole c [] msg s e v =
    body_byte msg s c true (ap (λ n. eq_ℕ n (msg.bodylen + 1)) e ∙ ground arith) v
body_whole c (d ∷ xs) msg s e v =
    let msg' = with_body msg (c ∷ []) in
    let left : getmsglen msg' ≡ pos (msg'.bodylen + length (d ∷ xs)) =
      unfold getmsglen get_value in (e ∙ ap pos (omega arith)) in
    subst (λ m. Goes s (c ∷ d ∷ xs) (InState http_complete m))
      (with_body-with_body msg (c ∷ []) (d ∷ xs))
      (Goes-append s (c ∷ []) (d ∷ xs) (InState http_body msg')
        (InState http_complete (with_body msg' (d ∷ xs)))
        (body_byte msg s c false (ap (λ n. eq_ℕ n (msg.bodylen + 1)) e ∙ ground arith) v)
        (λ t w. body_whole d xs msg' t left w))
