-- ===== src/HttpParser/ReadsMessage.antt =====
-- A whole message, as `httpc_Message_encode` writes it, read by the automaton of httpparser.c.
use libsimple.Base.{
  ℕ, ◌≡◌, ◌≢◌, ◌⊎◌, inl, inr, refl, ap, sym, ◌∙◌, subst, Bool, true, false, some, List, [], ◌∷◌,
  ◌++◌, append_assoc, Bytes, length, arith, if◌then◌else◌,
}
use mathlib.Core.List.{reverse, reverse-append}
use libsimple.Base.Int.{pos, is_positive}
use libsimple.Clib.Text.{Lacks, append-Lacks}
use libsimple.HttpMessage.{
  HttpMessage, HttpHeader, HttpParserState, StartLine, create, crlf, http_startline, http_complete,
  body_bytes, set_value, encode_start, encode_headers,
}
use libsimple.HttpParser.{
  Session, isspace, iseol, is_startline, finish_line, parse_start_line, parse_header_line, fresh,
  getmsglen,
}
use libsimple.HttpParser.FirstLine.{IsStart, Passes, parse_start_line-encode_start}
use libsimple.HttpParser.Reads.{Goes, Goes-append, Goes-nil, InLine, AfterCrlf, Ready, line_byte}
use libsimple.HttpParser.ReadsHeaders.{AllWritable, push_all, header_lines}
use libsimple.HttpParser.ReadsLine.{
  line_whole, Ending, Ready-cr, InState, body_state, Ending-lf, with_body, body_whole,
}
use libsimple.Outcome.{done}

Passes-Lacks : (stop : ℕ → Bool) (c : ℕ) (s : Bytes) → stop c ≡ true → Passes stop s → Lacks c s
Passes-Lacks stop c [] e p = tt
Passes-Lacks stop c (x ∷ s) e p = ((λ same. cc (ap stop same, e, p.0)), Passes-Lacks stop c s e p.1)

-- a start line without its end
abbrev start_text : Bytes → Bytes → Bytes → Bytes
start_text p1 p2 p3 = p1 ++ (b' ' ∷ (p2 ++ (b' ' ∷ p3)))

encode_start-start_text : (p1 p2 p3 : Bytes) → encode_start p1 p2 p3 ≡ start_text p1 p2 p3 ++ crlf
encode_start-start_text p1 p2 p3 = sym (
    append_assoc p1 (b' ' ∷ (p2 ++ (b' ' ∷ p3))) crlf
    ∙ ap (λ t. p1 ++ (b' ' ∷ t)) (append_assoc p2 (b' ' ∷ p3) crlf))

abbrev pub started : Bytes → Bytes → Bytes → HttpMessage
started p1 p2 p3 = record create {
  start_line = record { p1 = some p1; p2 = some p2; p3 = some p3 };
}

start-Ready :
    (p1 p2 p3 : Bytes) (s : Session)
    → IsStart p1 p2 p3
    → AfterCrlf http_startline ((start_text p1 p2 p3 ++ (b'\r' ∷ [])) ++ (b'\n' ∷ [])) create s
    → Ready (started p1 p2 p3) s
unfolding finish_line
start-Ready p1 p2 p3 s p v =
    let line : s.pd.linedata ≡ encode_start p1 p2 p3 =
      v.line_is
      ∙ append_assoc (start_text p1 p2 p3) (b'\r' ∷ []) (b'\n' ∷ [])
      ∙ sym (encode_start-start_text p1 p2 p3) in
    let parts : StartLine = record { p1 = some p1; p2 = some p2; p3 = some p3 } in
    record {
      state_is = v.state_is;
      finished = record s { msg = record s.msg { start_line = parts } };
      finishes =
          ap (λ st. if is_startline st then done (parse_start_line s) else parse_header_line s)
            v.last_is
          ∙ ap (λ t. done t) (parse_start_line-encode_start s p1 p2 p3 p line);
      msg_is = ap (λ (m : HttpMessage). record m { start_line = parts }) v.msg_is;
    }

-- The start line, from the beginning of a message.
start_goes :
    (junk : HttpParserState) (p1 p2 p3 : Bytes)
    → IsStart p1 p2 p3
    → Goes (fresh junk) (encode_start p1 p2 p3) (Ready (started p1 p2 p3))
start_goes junk [] p2 p3 p = absurd p.solid1
start_goes junk (c ∷ p1) p2 p3 p =
    let rest = start_text p1 p2 p3 in
    let n : c ≢ b'\r' = (Passes-Lacks isspace b'\r' (c ∷ []) refl (p.word1.0, tt)).0 in
    let clean : Lacks b'\r' rest =
      append-Lacks b'\r' p1 (b' ' ∷ (p2 ++ (b' ' ∷ p3)))
        (Passes-Lacks isspace b'\r' p1 refl p.word1.1)
        (
          ground arith,
          append-Lacks b'\r' p2 (b' ' ∷ p3) (Passes-Lacks isspace b'\r' p2 refl p.word2)
              (ground arith, Passes-Lacks iseol b'\r' p3 refl p.rest),
        ) in
    let begin : InLine http_startline [] create (fresh junk) =
      unfold fresh in (record { state_is = refl; line_is = refl; msg_is = refl }) in
    subst (λ l. Goes (fresh junk) l (Ready (started (c ∷ p1) p2 p3)))
      (sym (encode_start-start_text (c ∷ p1) p2 p3))
      (Goes-append (fresh junk) (c ∷ []) (rest ++ crlf) (InLine http_startline (c ∷ []) create)
        (Ready (started (c ∷ p1) p2 p3))
        (line_byte http_startline tt [] create (fresh junk) c n begin)
        (λ t x.
          let g = line_whole http_startline tt c [] rest create t n clean x in
          record {
            to = g.to;
            reaches = g.reaches;
            holds = start-Ready (c ∷ p1) p2 p3 g.to p g.holds;
          }))

-- A complete message that has the parts of `msg`, and this body.
pub record IsRead (msg : HttpMessage) (body : Bytes) (s : Session) : Type 0 where
  pub state_is : s.pd.state ≡ http_complete
  pub start_is : s.msg.start_line ≡ msg.start_line
  pub headers_is : s.msg.headers ≡ msg.headers
  pub body_is : body_bytes s.msg.body ≡ body

-- The number that a message announces is the length of the body; or there is none, and no body.
abbrev pub Announces : HttpMessage → Bytes → Type 0
Announces msg body =
    (getmsglen msg ≡ pos (length body))
    ⊎ ((length body ≡ 0) × (is_positive (getmsglen msg) ≡ false))

body_goes :
    (body : Bytes) (msg : HttpMessage) (s : Session)
    → msg.bodylen ≡ 0
    → body_bytes msg.body ≡ []
    → Announces msg body
    → InState (body_state (is_positive (getmsglen msg))) msg s
    → Goes s body (IsRead msg body)
body_goes [] msg s z b a v =
    let nothing : is_positive (getmsglen msg) ≡ false = elim a [
      | inl e ↦ ap is_positive e
      | inr e ↦ e.1
    ] in
    Goes-nil s (IsRead msg []) (record {
      state_is = v.state_is ∙ ap body_state nothing;
      start_is = ap (λ (m : HttpMessage). m.start_line) v.msg_is;
      headers_is = ap (λ (m : HttpMessage). m.headers) v.msg_is;
      body_is = ap (λ (m : HttpMessage). body_bytes m.body) v.msg_is ∙ b;
    })
body_goes (c ∷ xs) msg s z b a v =
    let total : getmsglen msg ≡ pos (length (c ∷ xs)) = elim a [
      | inl e ↦ e
      | inr e ↦ absurd (omega (arith, e.0))
    ] in
    let some_body : is_positive (getmsglen msg) ≡ true = ap is_positive total ∙ ground arith in
    let g : Goes s (c ∷ xs) (InState http_complete (with_body msg (c ∷ xs))) =
      body_whole c xs msg s (total ∙ ap pos (omega arith))
        (subst (λ st. InState st msg s) (ap body_state some_body) v) in
    record {
      to = g.to;
      reaches = g.reaches;
      holds = record {
        state_is = g.holds.state_is;
        start_is = ap (λ (m : HttpMessage). m.start_line) g.holds.msg_is;
        headers_is = ap (λ (m : HttpMessage). m.headers) g.holds.msg_is;
        body_is = ap (λ (m : HttpMessage). body_bytes m.body) g.holds.msg_is ∙ ap (◌++ (c ∷ xs)) b;
      };
    }

-- The empty line and the body.
end_goes :
    (body : Bytes) (msg : HttpMessage) (s : Session)
    → msg.bodylen ≡ 0
    → body_bytes msg.body ≡ []
    → Announces msg body
    → Ready msg s
    → Goes s (crlf ++ body) (IsRead msg body)
end_goes body msg s z b a v =
    Goes-append s (b'\r' ∷ []) (b'\n' ∷ body) (Ending msg) (IsRead msg body) (Ready-cr msg s v)
      (λ t x.
        Goes-append t (b'\n' ∷ []) body (InState (body_state (is_positive (getmsglen msg))) msg)
          (IsRead msg body) (Ending-lf msg t x) (λ u y. body_goes body msg u z b a y))

-- What the headers do to a message.
pub push_all-keeps :
    (hs : List HttpHeader) (msg : HttpMessage)
    → ((push_all msg hs).headers ≡ reverse hs ++ msg.headers)
      × ((push_all msg hs).start_line ≡ msg.start_line)
      × ((push_all msg hs).bodylen ≡ msg.bodylen)
      × ((push_all msg hs).body ≡ msg.body)
unfolding set_value
push_all-keeps [] msg = (refl, refl, refl, refl)
push_all-keeps (h ∷ hs) msg =
    let (e, f, g, k) = push_all-keeps hs (set_value msg h.key h.value) in
    (
      e
          ∙ sym (
              ap (◌++ msg.headers) (reverse-append (h ∷ []) hs)
              ∙ append_assoc (reverse hs) (h ∷ []) msg.headers),
      f,
      g,
      k,
    )

pub message_goes :
    (junk : HttpParserState) (p1 p2 p3 : Bytes) (hs : List HttpHeader) (body : Bytes)
    → IsStart p1 p2 p3
    → AllWritable hs
    → Announces (push_all (started p1 p2 p3) hs) body
    → Goes
        (fresh junk)
        (encode_start p1 p2 p3 ++ (encode_headers hs ++ (crlf ++ body)))
        (IsRead (push_all (started p1 p2 p3) hs) body)
unfolding create
message_goes junk p1 p2 p3 hs body p w a =
    let msg = push_all (started p1 p2 p3) hs in
    let (headers, start, size, none_yet) = push_all-keeps hs (started p1 p2 p3) in
    Goes-append (fresh junk) (encode_start p1 p2 p3) (encode_headers hs ++ (crlf ++ body))
      (Ready (started p1 p2 p3)) (IsRead msg body) (start_goes junk p1 p2 p3 p)
      (λ t x.
        Goes-append t (encode_headers hs) (crlf ++ body) (Ready msg) (IsRead msg body)
          (header_lines hs (started p1 p2 p3) t w x)
          (λ u y. end_goes body msg u size (ap body_bytes none_yet) a y))
