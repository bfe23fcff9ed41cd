-- ===== src/HttpParser/Steps.antt =====
-- The step of `appendByte` for each state, against the invariant of HttpParser/Inv.
use libsimple.Base.{
  ℕ, ◌+◌, ◌≤◌, ◌<◌, ◌≡◌, refl, ap, ap₂, subst, sym, ◌∙◌, true, false, Option, none, some, [], ◌∷◌,
  ◌++◌, append_assoc, Bytes, length, length-append, length-take, ◌==◌, if◌then◌else◌, arith,
  Bool-cases, inl, inr,
}
use libsimple.Base.Int.{ℤ, pos, negsuc, is_positive, eq_ℕ}
use libsimple.Clib.Text.{find_crlf}
use libsimple.HttpMessage.{
  HttpParserState, http_unknown, http_startline, http_headers, http_body, http_complete, http_cr,
  http_crlf, http_lsw, HttpMessage, body_bytes, get_value, extend_body,
}
use libsimple.HttpMessage.Encode.{IsSized}
use libsimple.HttpParser.{
  Session, append, getmsglen, append_to_body, byte_in, byte_in_line, byte_after_cr, byte_in_lsw,
  byte_after_crlf, finish_line, appended, starts_crlf, isblank, go_to, cut_line,
}
use libsimple.Outcome.{Holds, Holds-bind}
use libsimple.HttpParser.Inv.{
  IsLineState, IsAwaiting, StateInv, Inv, append-fits, IsLineState-StateInv, appended-Inv,
}
use libsimple.HttpParser.Keeps.{KeepsLine, finish_line-KeepsLine}

-- `case HTTP_STARTLINE` and `case HTTP_HEADERS`.
byte_in_line-Inv :
    (st : HttpParserState) (s : Session) (c : ℕ)
    → IsLineState st
    → s.pd.state ≡ st
    → Inv s
    → s.msg.bodylen ≡ 0
    → Inv (byte_in_line st s c)
unfolding byte_in_line append
byte_in_line-Inv st s c l e v z = elim (Bool-cases (c == b'\r')) [
  | inl cr ↦
      let c_is : c ≡ b'\r' = ground arith in
      rw cr (
        appended-Inv http_cr st s c v
          (z, l, (s.pd.linedata, ap (λ k. s.pd.linedata ++ (k ∷ [])) c_is)))
  | inr other ↦ rw other (
      appended-Inv s.pd.state s.pd.last_state s c v (
        subst (λ st'. StateInv st' (appended c s)) (sym e)
          (IsLineState-StateInv st (appended c s) l z)))
]

-- A message without a body so far awaits one if its announced length is positive.
awaits : (msg : HttpMessage) → msg.bodylen ≡ 0 → is_positive (getmsglen msg) ≡ true → IsAwaiting msg
awaits msg z p = positive (getmsglen msg) refl p
  where
    positive : (n : ℤ) → getmsglen msg ≡ n → is_positive n ≡ true → IsAwaiting msg
    positive (pos n) e h = record { total = n; announced = e; missing = ground arith }
    positive (negsuc n) e h = cc

-- `case HTTP_CR`.
byte_after_cr-Inv : (s : Session) (c : ℕ) → Inv s → StateInv http_cr s → Inv (byte_after_cr s c)
unfolding byte_after_cr append
byte_after_cr-Inv s c v (z, l, (start, ends)) = elim (Bool-cases (c == b'\n')) [
  | inl lf ↦ elim (Bool-cases (starts_crlf (s.pd.linedata ++ (c ∷ [])))) [
    | inl blank ↦ elim (Bool-cases (is_positive (getmsglen s.msg))) [
      | inl more ↦
          rw (lf, blank, more) (appended-Inv http_body s.pd.last_state s c v (awaits s.msg z more))
      | inr empty ↦
          rw (lf, blank, empty) (appended-Inv http_complete s.pd.last_state s c v (inr (z, empty)))
    ]
    | inr text ↦
        let c_is : c ≡ b'\n' = ground arith in
        rw (lf, text)
          (appended-Inv http_crlf s.pd.last_state s c v (
            z,
            l,
            (
              start,
              ap₂ (λ line k. line ++ (k ∷ [])) ends c_is
                  ∙ append_assoc start (b'\r' ∷ []) (b'\n' ∷ []),
            ),
          ))
  ]
  | inr other ↦ rw other (
      appended-Inv s.pd.last_state s.pd.last_state s c v
        (IsLineState-StateInv s.pd.last_state (go_to s.pd.last_state (appended c s)) l z))
]

-- `case HTTP_LSW`.
byte_in_lsw-Inv : (s : Session) (c : ℕ) → Inv s → StateInv http_lsw s → Inv (byte_in_lsw s c)
unfolding byte_in_lsw append
byte_in_lsw-Inv s c v (z, l) = elim (Bool-cases (isblank c)) [
  | inl blank ↦ rw blank v
  | inr text ↦ rw text (
      appended-Inv s.pd.last_state s.pd.last_state s c v
        (IsLineState-StateInv s.pd.last_state (appended c (go_to s.pd.last_state s)) l z))
]

-- `case HTTP_CRLF`.
byte_after_crlf-Inv :
    (s : Session) (c : ℕ) → Inv s → StateInv http_crlf s → Holds Inv (byte_after_crlf s c)
unfolding byte_after_crlf cut_line append
byte_after_crlf-Inv s c v (z, l, ends) = elim (Bool-cases (isblank c)) [
  | inl blank ↦ rw blank (cut (find_crlf s.pd.linedata))
  | inr text ↦
      rw text (Holds-bind (KeepsLine s) Inv (finish_line s) _ (finish_line-KeepsLine s v) next)
]
  where
    cut : (o : Option ℕ) → Inv (record s { pd = record (cut_line o s.pd) { state = http_lsw } })
    cut none = record {
      fits = v.fits;
      sized = v.sized;
      counted = v.counted;
      detached = v.detached;
      by_state = (z, l);
    }
    cut (some n) = record {
      fits = omega (arith, length-take n s.pd.linedata);
      sized = v.sized;
      counted = v.counted;
      detached = v.detached;
      by_state = (z, l);
    }

    next :
        (s' : Session)
        → KeepsLine s s'
        → Inv (
            go_to
              (if c == b'\r' then http_cr else http_headers)
              (appended c (record s' { pd = record s'.pd { linedata = [] } })))
    next s' k =
        let empty = record s'.pd { linedata = [] } in
        let ready : IsLineState s'.pd.last_state =
          subst (λ pd. IsLineState pd.last_state) (sym k.same_pd) l in
        let fits : length (append c empty).linedata ≤ (append c empty).line_bufsize =
          append-fits c empty (omega arith) in
        let z' : s'.msg.bodylen ≡ 0 = k.same_bodylen ∙ z in
        elim (Bool-cases (c == b'\r')) [
          | inl cr ↦
              let c_is : c ≡ b'\r' = ground arith in
              rw cr (record {
                fits = fits;
                sized = k.sized;
                counted = k.counted;
                detached = k.detached;
                by_state = (z', ready, ([], ap (λ k. k ∷ []) c_is));
              })
          | inr other ↦ rw other (record {
            fits = fits;
            sized = k.sized;
            counted = k.counted;
            detached = k.detached;
            by_state = z';
          })
        ]

-- Bytes of the body, up to as many as are missing.
pub append_to_body-Inv :
    (s : Session) (from : Bytes) (w : IsAwaiting s.msg)
    → s.pd.state ≡ http_body
    → Inv s
    → s.msg.bodylen + length from ≤ w.total
    → Inv (append_to_body s from)
unfolding append_to_body
append_to_body-Inv s from w e v h =
    elim (Bool-cases (eq_ℕ (getmsglen s.msg) (s.msg.bodylen + length from))) [
      | inl all ↦ rw all (record {
        fits = v.fits;
        sized = sized;
        counted = v.counted;
        detached = v.detached;
        by_state = inl (whole all);
      })
      | inr part ↦ rw part (record {
        fits = v.fits;
        sized = sized;
        counted = v.counted;
        detached = v.detached;
        by_state =
            subst (λ st. StateInv st (record s { msg = extend_body s.msg from })) (sym e)
              (record { total = w.total; announced = announced; missing = missing part });
      })
    ]
  where
    sized : IsSized (extend_body s.msg from)
    sized = omega (arith, v.sized, length-append (body_bytes s.msg.body) from)

    announced : getmsglen (extend_body s.msg from) ≡ pos w.total
    announced = unfold getmsglen get_value in w.announced

    whole :
        eq_ℕ (getmsglen s.msg) (s.msg.bodylen + length from) ≡ true
        → getmsglen (extend_body s.msg from) ≡ pos (s.msg.bodylen + length from)
    whole all = ground (arith, announced, w.announced)

    missing :
        eq_ℕ (getmsglen s.msg) (s.msg.bodylen + length from) ≡ false
        → s.msg.bodylen + length from < w.total
    missing part = ground (arith, w.announced)

-- Each byte keeps the invariant.
pub byte_in-Inv :
    (st : HttpParserState) (s : Session) (c : ℕ)
    → s.pd.state ≡ st
    → Inv s
    → Holds Inv (byte_in st s c)
unfolding byte_in
byte_in-Inv http_unknown s c e v = v
byte_in-Inv http_startline s c e v =
    byte_in_line-Inv http_startline s c tt e v (subst (λ st. StateInv st s) e v.by_state)
byte_in-Inv http_headers s c e v =
    byte_in_line-Inv http_headers s c tt e v (subst (λ st. StateInv st s) e v.by_state)
byte_in-Inv http_body s c e v =
    let w : IsAwaiting s.msg = subst (λ st. StateInv st s) e v.by_state in
    append_to_body-Inv s (c ∷ []) w e v (omega (arith, w.missing))
byte_in-Inv http_complete s c e v = v
byte_in-Inv http_cr s c e v = byte_after_cr-Inv s c v (subst (λ st. StateInv st s) e v.by_state)
byte_in-Inv http_crlf s c e v = byte_after_crlf-Inv s c v (subst (λ st. StateInv st s) e v.by_state)
byte_in-Inv http_lsw s c e v = byte_in_lsw-Inv s c v (subst (λ st. StateInv st s) e v.by_state)
