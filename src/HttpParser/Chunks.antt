-- ===== src/HttpParser/Chunks.antt =====
-- The chunks in which the loop of `httpc_parser_parse` takes the body.
use libsimple.Base.{
  ℕ, zero, suc, ◌+◌, ◌-◌, ◌≤◌, ◌<◌, min, ◌≡◌, refl, ap, ap₂, ◌∙◌, false, Option, none, some, [],
  ◌∷◌, ◌++◌, append_assoc, Bytes, length, length-append, take, drop, if◌then◌else◌, arith,
}
use libsimple.Base.Int.{pos, eq_ℕ}
use libsimple.Clib.Atoi.{atoi}
use libsimple.HttpMessage.{
  http_body, http_complete, HttpMessage, body_bytes, get_value, extend_body,
}
use libsimple.HttpParser.{
  Session, getmsglen, append_to_body, byte_in, go_to, expected, length_value, body_step, body_chunk,
}
use libsimple.HttpParser.Inv.{IsAwaiting}
use libsimple.Outcome.{done, ◌>>=◌}
use libsimple.HttpParser.Feed.{feed, feed_byte-byte_in}

-- What the body and its length are after some bytes, before the test for its end.
abbrev ended : Session → HttpMessage → Session
ended s msg =
    let s' = record s { msg = msg } in
    if eq_ℕ (getmsglen s.msg) msg.bodylen then go_to http_complete s' else s'

extend_body-append :
    (msg : HttpMessage) (xs ys : Bytes)
    → extend_body (extend_body msg xs) ys ≡ extend_body msg (xs ++ ys)
extend_body-append msg xs ys =
    ap₂ (λ b n. record msg { body = some b; bodylen = n })
      (append_assoc (body_bytes msg.body) xs ys) (omega (arith, length-append xs ys))

-- Bytes that do not complete the body, and then others.
append_to_body-append :
    (s : Session) (xs ys : Bytes)
    → eq_ℕ (getmsglen s.msg) (s.msg.bodylen + length xs) ≡ false
    → append_to_body (append_to_body s xs) ys ≡ append_to_body s (xs ++ ys)
unfolding append_to_body getmsglen get_value
append_to_body-append s xs ys h = rw h (ap (ended s) (extend_body-append s.msg xs ys))

-- The message still awaits bytes if there are fewer than are missing.
still_awaits :
    (s : Session) (from : Bytes) (w : IsAwaiting s.msg)
    → s.msg.bodylen + length from < w.total
    → eq_ℕ (getmsglen s.msg) (s.msg.bodylen + length from) ≡ false
still_awaits s from w h = ground (arith, w.announced)

pub append_to_body-awaits :
    (s : Session) (from : Bytes) (w : IsAwaiting s.msg)
    → s.msg.bodylen + length from < w.total
    → s.pd.state ≡ http_body
    → let s' = append_to_body s from in
      (s'.pd.state ≡ http_body)
      × (w' : IsAwaiting s'.msg) × (w'.total ≡ w.total)
      × (s'.msg.bodylen ≡ s.msg.bodylen + length from)
unfolding append_to_body getmsglen get_value
append_to_body-awaits s from w h e =
    let open_end = still_awaits s from w h in
    rw open_end (e, record { total = w.total; announced = w.announced; missing = h }, refl, refl)

feed-body :
    (s : Session) (c : ℕ) (from : Bytes) (used : ℕ)
    → s.pd.state ≡ http_body
    → feed s (c ∷ from) used ≡ feed (append_to_body s (c ∷ [])) from (used + 1)
unfolding feed byte_in
feed-body s c from used e =
    ap (λ m. m >>= λ r. feed r.0 from (used + r.1)) (feed_byte-byte_in http_body s c e refl)

-- A chunk of the body is its bytes, one at a time.
pub feed-chunk :
    (k : ℕ) (from : Bytes) (s : Session) (used : ℕ) (w : IsAwaiting s.msg)
    → s.pd.state ≡ http_body
    → s.msg.bodylen + suc k ≤ w.total
    → suc k ≤ length from
    → feed s from used
      ≡ feed (append_to_body s (take (suc k) from)) (drop (suc k) from) (used + suc k)
feed-chunk k [] s used w e h l = absurd (omega arith)
feed-chunk zero (c ∷ from) s used w e h l = feed-body s c from used e
feed-chunk (suc k) (c ∷ from) s used w e h l =
    let s1 = append_to_body s (c ∷ []) in
    let (e1, w1, t1, b1) = append_to_body-awaits s (c ∷ []) w (omega arith) e in
    feed-body s c from used e
    ∙ feed-chunk k from s1 (used + 1) w1 e1 (omega arith) (omega arith)
    ∙ ap₂ (λ s' n. feed s' (drop (suc k) from) n)
        (append_to_body-append s (c ∷ []) (take (suc k) from)
          (still_awaits s (c ∷ []) w (omega arith)))
        (omega arith)

-- In the state HTTP_BODY the loop takes as many bytes as there are, or as are missing.
pub body_step-awaiting :
    (o : Option Bytes) (s : Session) (from : Bytes) (total : ℕ)
    → length_value o ≡ pos total
    → s.msg.bodylen < total
    → (k : ℕ) × (body_step s from o ≡ done (append_to_body s (take k from), k))
      × (k ≡ min (total - s.msg.bodylen) (length from))
unfolding body_step body_chunk
body_step-awaiting none s from total e h = absurd (ground arith)
body_step-awaiting (some v) s from total e h =
    let some_left : expected (atoi v) s.msg.bodylen ≡ some (total - s.msg.bodylen) = ground arith in
    (min (total - s.msg.bodylen) (length from), ap (body_chunk s from) some_left, refl)
