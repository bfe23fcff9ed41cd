-- ===== src/HttpParser/RoundTrip.antt =====
-- A whole message: what `httpc_Message_encode` writes, given to `httpc_parser_parse`.
use libsimple.Base.{
  ◌≡◌, inl, inr, ap, sym, ◌∙◌, true, some, none, [], ◌++◌, append-nil, Bytes, length, take_all,
  arith,
}
use mathlib.Core.List.{reverse}
use libsimple.Base.Int.{pos, is_positive}
use libsimple.HttpMessage.{
  HttpMessage, HttpParserState, StartLine, create, crlf, content_length, find_value, http_complete,
  body_bytes, get_value, encode, encode_start, encode_headers,
}
use libsimple.HttpMessage.Encode.{IsSized}
use libsimple.HttpParser.{
  Session, fresh, resume, parse, saved_in, message_state, getmsglen, length_value,
}
use libsimple.HttpParser.FirstLine.{IsStart}
use libsimple.HttpParser.Incremental.{parse-feed}
use libsimple.HttpParser.Inv.{IsWhole}
use libsimple.HttpParser.Reads.{Goes}
use libsimple.HttpParser.ReadsHeaders.{AllWritable, push_all}
use libsimple.HttpParser.Feed.{feed}
use libsimple.Outcome.{done, ◌>>=◌}
use libsimple.HttpParser.ReadsMessage.{started, IsRead, Announces, push_all-keeps, message_goes}

pub same_length :
    (msg msg' : HttpMessage) → msg.headers ≡ msg'.headers → getmsglen msg ≡ getmsglen msg'
unfolding getmsglen get_value
same_length msg msg' e = ap (λ hs. length_value (find_value hs content_length)) e

pub encode_text :
    (msg : HttpMessage) (p1 p2 p3 : Bytes)
    → msg.start_line ≡ record { p1 = some p1; p2 = some p2; p3 = some p3 }
    → IsSized msg
    → encode msg true
      ≡ some
          (encode_start p1 p2 p3 ++ (encode_headers msg.headers ++ (crlf ++ body_bytes msg.body)))
unfolding encode
encode_text msg p1 p2 p3 e sized =
    ap (λ (start : StartLine). encode (record msg { start_line = start }) true) e
    ∙ ap
        (λ (b : Bytes). some (encode_start p1 p2 p3 ++ (encode_headers msg.headers ++ (crlf ++ b))))
        (take_all msg.bodylen (body_bytes msg.body) (omega (arith, sized)))

pub goes_parse :
    (junk : HttpParserState) (text : Bytes) (P : Session → Type 0) (g : Goes (fresh junk) text P)
    → parse none junk text ≡ done (saved_in g.to, length text)
unfolding resume feed
goes_parse junk text P g =
    parse-feed none junk text tt
    ∙ ap (λ m. m >>= λ r. done (saved_in r.0, r.1))
        (ap (λ t. feed (fresh junk) t 0) (sym (append-nil text))
          ∙ g.reaches 0 []
          ∙ ap (λ n. done (g.to, n)) (omega arith))

-- The message with its headers in the opposite order.
abbrev pub reversed : HttpMessage → HttpMessage
reversed msg = record msg { headers = reverse msg.headers }

-- What `httpc_Message_encode` writes for a message is parsed as one complete message, in one call
-- that uses every byte, with the start line, the body, and the headers in the opposite order: for a
-- start line of three solid parts, headers that can be written in a line, a `bodylen` that is right,
-- and a Content-Length that is right when the headers are searched from the last one.
pub parse-encode :
    (junk : HttpParserState) (msg : HttpMessage) (p1 p2 p3 : Bytes)
    → msg.start_line ≡ record { p1 = some p1; p2 = some p2; p3 = some p3 }
    → IsStart p1 p2 p3
    → AllWritable msg.headers
    → IsSized msg
    → IsWhole (reversed msg)
    → (text : Bytes) × (after : HttpMessage) × (encode msg true ≡ some text)
      × (parse none junk text ≡ done (after, length text))
      × (message_state (some after) ≡ http_complete)
      × (after.start_line ≡ msg.start_line)
      × (after.headers ≡ reverse msg.headers)
      × (body_bytes after.body ≡ body_bytes msg.body)
unfolding message_state
parse-encode junk msg p1 p2 p3 e p w sized whole =
    let body = body_bytes msg.body in
    let text = encode_start p1 p2 p3 ++ (encode_headers msg.headers ++ (crlf ++ body)) in
    let read = push_all (started p1 p2 p3) msg.headers in
    let keeps = push_all-keeps msg.headers (started p1 p2 p3) in
    let headers : read.headers ≡ reverse msg.headers =
      keeps.0 ∙ unfold create in (append-nil (reverse msg.headers)) in
    let same : getmsglen read ≡ getmsglen (reversed msg) =
      same_length read (reversed msg) headers in
    let announces : Announces read body = elim whole [
      | inl a ↦ inl (same ∙ a ∙ ap pos sized)
      | inr (z, a) ↦ inr (sym sized ∙ z, ap is_positive same ∙ a)
    ] in
    let g : Goes (fresh junk) text (IsRead read body) =
      message_goes junk p1 p2 p3 msg.headers body p w announces in
    (
      text,
      saved_in g.to,
      encode_text msg p1 p2 p3 e sized,
      goes_parse junk text (IsRead read body) g,
      g.holds.state_is,
      g.holds.start_is ∙ keeps.1 ∙ sym e,
      g.holds.headers_is ∙ headers,
      g.holds.body_is,
    )
