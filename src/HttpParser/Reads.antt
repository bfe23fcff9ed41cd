-- ===== src/HttpParser/Reads.antt =====
-- Stretches of the input of `httpc_parser_parse`, and where they take the parser.
use libsimple.Base.{
  ℕ, ◌+◌, ◌≡◌, ◌≢◌, refl, ap, sym, ◌∙◌, subst, false, [], ◌∷◌, ◌++◌, append-nil, append_assoc,
  Bytes, length, length-append, arith,
}
use libsimple.Clib.Text.{Lacks}
use libsimple.HttpMessage.{
  HttpMessage, HttpParserState, http_unknown, http_lsw, http_startline, http_headers, http_cr,
  http_crlf, http_body, http_complete,
}
use libsimple.HttpParser.{
  Session, append, byte_in, is_complete, byte_in_line, byte_after_cr, finish_line, starts_crlf,
  appended, go_to,
}
use libsimple.HttpParser.Feed.{feed, feed_byte-byte_in}
use libsimple.HttpParser.Inv.{IsLineState}
use libsimple.Outcome.{done, ◌>>=◌}

-- The bytes take the parser from one session to the other, whatever follows them.
abbrev pub Reaches : Session → Bytes → Session → Type 0
Reaches s xs s' = (used : ℕ) (ys : Bytes) → feed s (xs ++ ys) used ≡ feed s' ys (used + length xs)

pub Reaches-byte :
    (st : HttpParserState) (s : Session) (c : ℕ) (s' : Session)
    → s.pd.state ≡ st
    → is_complete st ≡ false
    → byte_in st s c ≡ done s'
    → Reaches s (c ∷ []) s'
unfolding feed
Reaches-byte st s c s' e h b used ys =
    ap (λ m. m >>= λ r. feed r.0 ys (used + r.1))
      (feed_byte-byte_in st s c e h ∙ ap (λ m. m >>= λ t. done (t, 1)) b)

-- They take it to a session with a property.
pub record Goes (s : Session) (xs : Bytes) (P : Session → Type 0) : Type 0 where
  pub to : Session
  pub reaches : Reaches s xs to
  pub holds : P to

pub Goes-nil : (s : Session) (P : Session → Type 0) → P s → Goes s [] P
Goes-nil s P p = record { to = s; reaches = λ used ys. ap (feed s ys) (omega arith); holds = p }

pub Goes-append :
    (s : Session) (xs ys : Bytes) (P Q : Session → Type 0)
    → Goes s xs P
    → ((t : Session) → P t → Goes t ys Q)
    → Goes s (xs ++ ys) Q
Goes-append s xs ys P Q g k =
    let g' : Goes g.to ys Q = k g.to g.holds in
    record {
      to = g'.to;
      reaches = λ used zs.
          ap (λ l. feed s l used) (append_assoc xs ys zs)
          ∙ g.reaches used (ys ++ zs)
          ∙ g'.reaches (used + length xs) zs
          ∙ ap (feed g'.to zs) (omega (arith, length-append xs ys));
      holds = g'.holds;
    }

-- In a line: its state, what has been read of it, and the message so far.
pub record InLine (st : HttpParserState) (line : Bytes) (msg : HttpMessage) (s : Session)
    : Type 0 where
  pub state_is : s.pd.state ≡ st
  pub line_is : s.pd.linedata ≡ line
  pub msg_is : s.msg ≡ msg

-- Behind the CR of a line, and behind its LF.
pub record AfterCr (st : HttpParserState) (line : Bytes) (msg : HttpMessage) (s : Session)
    : Type 0 where
  pub state_is : s.pd.state ≡ http_cr
  pub last_is : s.pd.last_state ≡ st
  pub line_is : s.pd.linedata ≡ line
  pub msg_is : s.msg ≡ msg

pub record AfterCrlf (st : HttpParserState) (line : Bytes) (msg : HttpMessage) (s : Session)
    : Type 0 where
  pub state_is : s.pd.state ≡ http_crlf
  pub last_is : s.pd.last_state ≡ st
  pub line_is : s.pd.linedata ≡ line
  pub msg_is : s.msg ≡ msg

-- Behind a line that gives a message.
pub record Ready (msg : HttpMessage) (s : Session) : Type 0 where
  pub state_is : s.pd.state ≡ http_crlf
  pub finished : Session
  pub finishes : finish_line s ≡ done finished
  pub msg_is : finished.msg ≡ msg

in_line :
    (st : HttpParserState) (s : Session) (c : ℕ)
    → IsLineState st
    → (is_complete st ≡ false) × (byte_in st s c ≡ done (byte_in_line st s c))
unfolding byte_in
in_line http_startline s c l = (refl, refl)
in_line http_headers s c l = (refl, refl)
in_line http_unknown s c l = absurd l
in_line http_body s c l = absurd l
in_line http_complete s c l = absurd l
in_line http_cr s c l = absurd l
in_line http_crlf s c l = absurd l
in_line http_lsw s c l = absurd l

module _ (st : HttpParserState) (l : IsLineState st) where
  pub line_byte :
      (line : Bytes) (msg : HttpMessage) (s : Session) (c : ℕ)
      → c ≢ b'\r'
      → InLine st line msg s
      → Goes s (c ∷ []) (InLine st (line ++ (c ∷ [])) msg)
  unfolding byte_in_line append
  line_byte line msg s c n v =
      let (running, step) = in_line st s c l in
      let stays : byte_in_line st s c ≡ appended c s = ground arith in
      record {
        to = appended c s;
        reaches =
            Reaches-byte st s c (appended c s) v.state_is running (step ∙ ap (λ t. done t) stays);
        holds = record {
          state_is = v.state_is;
          line_is = ap (◌++ (c ∷ [])) v.line_is;
          msg_is = v.msg_is;
        };
      }

  pub line_bytes :
      (xs line : Bytes) (msg : HttpMessage) (s : Session)
      → Lacks b'\r' xs
      → InLine st line msg s
      → Goes s xs (InLine st (line ++ xs) msg)
  line_bytes [] line msg s o v =
      Goes-nil s (InLine st (line ++ []) msg)
        (subst (λ t. InLine st t msg s) (sym (append-nil line)) v)
  line_bytes (c ∷ xs) line msg s o v =
      subst (λ t. Goes s (c ∷ xs) (InLine st t msg)) (append_assoc line (c ∷ []) xs)
        (Goes-append s (c ∷ []) xs (InLine st (line ++ (c ∷ [])) msg)
          (InLine st ((line ++ (c ∷ [])) ++ xs) msg) (line_byte line msg s c o.0 v)
          (λ t w. line_bytes xs (line ++ (c ∷ [])) msg t o.1 w))

  pub line_cr :
      (line : Bytes) (msg : HttpMessage) (s : Session)
      → InLine st line msg s
      → Goes s (b'\r' ∷ []) (AfterCr st (line ++ (b'\r' ∷ [])) msg)
  unfolding byte_in_line append
  line_cr line msg s v =
      let (running, step) = in_line st s b'\r' l in
      record {
        to = byte_in_line st s b'\r';
        reaches = Reaches-byte st s b'\r' (byte_in_line st s b'\r') v.state_is running step;
        holds = record {
          state_is = refl;
          last_is = refl;
          line_is = ap (◌++ (b'\r' ∷ [])) v.line_is;
          msg_is = v.msg_is;
        };
      }

-- The LF of a line that is not empty.
pub line_lf :
    (st : HttpParserState) (line : Bytes) (msg : HttpMessage) (s : Session)
    → starts_crlf (line ++ (b'\n' ∷ [])) ≡ false
    → AfterCr st line msg s
    → Goes s (b'\n' ∷ []) (AfterCrlf st (line ++ (b'\n' ∷ [])) msg)
unfolding byte_in byte_after_cr append
line_lf st line msg s e v =
    let e' : starts_crlf (s.pd.linedata ++ (b'\n' ∷ [])) ≡ false =
      ap (λ t. starts_crlf (t ++ (b'\n' ∷ []))) v.line_is ∙ e in
    let to = go_to http_crlf (appended b'\n' s) in
    record {
      to = to;
      reaches = Reaches-byte http_cr s b'\n' to v.state_is refl (ap done (rw e'));
      holds = record {
        state_is = refl;
        last_is = v.last_is;
        line_is = ap (◌++ (b'\n' ∷ [])) v.line_is;
        msg_is = v.msg_is;
      };
    }
