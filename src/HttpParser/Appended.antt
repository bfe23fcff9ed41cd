-- ===== src/HttpParser/Appended.antt =====
-- A body that `httpc_Message_appendBody` has put together in two calls, encoded and parsed.
use libsimple.Base.{
  ℕ, ◌+◌, ◌<◌, ◌^◌, ◌≡◌, ◌≢◌, inl, inr, refl, ap, ap₂, sym, ◌∙◌, true, Option, some, none, List, [],
  ◌∷◌, ◌++◌, append-nil, append_assoc, Bytes, length, length-append, arith, if◌then◌else◌,
  Bool-cases,
}
use mathlib.Core.List.{reverse, reverse-append}
use libsimple.Base.Int.{pos}
use libsimple.Clib.Decimal.{decimal, atoi-decimal}
use libsimple.Clib.Text.{strcaseeq}
use libsimple.HttpMessage.{
  HttpMessage, HttpHeader, HttpParserState, http_complete, create, crlf, content_length, find_value,
  get_value, body_bytes, set_value, append_body, encode, encode_start, encode_headers,
}
use libsimple.HttpMessage.Body.{same_key}
use libsimple.HttpParser.{
  fresh, parse, resume, saved_in, message_state, getmsglen, length_value, is_complete,
}
use libsimple.HttpParser.Feed.{feed_complete}
use libsimple.HttpParser.FirstLine.{IsStart}
use libsimple.HttpParser.Incremental.{parse-feed}
use libsimple.HttpParser.Reads.{Goes}
use libsimple.HttpParser.ReadsHeaders.{AllWritable, push_all}
use libsimple.HttpParser.ReadsMessage.{started, IsRead, push_all-keeps, message_goes}
use libsimple.HttpParser.RoundTrip.{same_length, encode_text, reversed}
use libsimple.Outcome.{done, ◌>>=◌}

-- Searching two lists of headers one after the other.
find_value-append :
    (hs gs : List HttpHeader) (key : Bytes)
    → find_value hs key ≡ none
    → find_value (hs ++ gs) key ≡ find_value gs key
unfolding find_value
find_value-append [] gs key e = refl
find_value-append (h ∷ hs) gs key e = elim (Bool-cases (strcaseeq h.key key)) [
  | inl hit ↦ absurd (ground (arith, hit, e))
  | inr miss ↦ rw miss (find_value-append hs gs key (rw miss at e))
]

find_value-reverse :
    (hs : List HttpHeader) (key : Bytes)
    → find_value hs key ≡ none
    → find_value (reverse hs) key ≡ none
unfolding find_value
find_value-reverse [] key e = refl
find_value-reverse (h ∷ hs) key e = elim (Bool-cases (strcaseeq h.key key)) [
  | inl hit ↦ absurd (ground (arith, hit, e))
  | inr miss ↦
      ap (λ l. find_value l key) (reverse-append (h ∷ []) hs)
      ∙ find_value-append (reverse hs) (h ∷ []) key (find_value-reverse hs key (rw miss at e))
      ∙ rw miss
]

-- the header that announces a length
abbrev pub announcing : ℕ → HttpHeader
announcing n = record { key = content_length; value = decimal n }

-- a message with two parts of a body, as two calls leave it
abbrev twice : HttpMessage → Bytes → Bytes → HttpMessage
twice msg xs ys = record msg {
  headers = announcing (length xs + length ys) ∷ announcing (length xs) ∷ msg.headers;
  header_cnt = msg.header_cnt + 1 + 1;
  body = some (xs ++ ys);
  bodylen = length xs + length ys;
}

first_length :
    (msg : HttpMessage) (xs ys : Bytes)
    → get_value msg content_length ≡ none
    → length xs < 2 ^ 31
    → getmsglen (reversed (twice msg xs ys)) ≡ pos (length xs)
unfolding getmsglen get_value find_value
first_length msg xs ys e small =
    let a = announcing (length xs + length ys) in
    let b = announcing (length xs) in
    let found : find_value (b ∷ a ∷ []) content_length ≡ some (decimal (length xs)) =
      ap (λ t. if t then some (decimal (length xs)) else find_value (a ∷ []) content_length)
        same_key in
    ap (λ l. length_value (find_value l content_length)) (reverse-append (a ∷ b ∷ []) msg.headers)
    ∙ ap length_value (
        find_value-append (reverse msg.headers) (b ∷ a ∷ []) content_length
          (find_value-reverse msg.headers content_length e)
        ∙ found)
    ∙ atoi-decimal (length xs) small

append_body-twice :
    (msg : HttpMessage) (xs ys : Bytes)
    → msg.body ≡ none
    → msg.bodylen ≡ 0
    → xs ≢ []
    → ys ≢ []
    → (append_body (append_body (some msg) xs).1 ys).1 ≡ some (twice msg xs ys)
unfolding append_body set_value
append_body-twice msg [] ys b z nx ny = absurd (nx refl)
append_body-twice msg (x ∷ xs) [] b z nx ny = absurd (ny refl)
append_body-twice msg (x ∷ xs) (y ∷ ys) b z nx ny =
    ap₂
      (λ (o : Option Bytes) (n : ℕ).
        (append_body (append_body (some (record msg { body = o; bodylen = n })) (x ∷ xs)).1
          (y ∷ ys)).1)
      b z
    ∙ ap₂
        (λ (n m : ℕ). some (record msg {
          headers = announcing m ∷ announcing n ∷ msg.headers;
          header_cnt = msg.header_cnt + 1 + 1;
          body = some ((x ∷ xs) ++ (y ∷ ys));
          bodylen = m;
        }))
        (omega arith) (omega arith)

-- The parser at the end of a stretch that has completed the message.
goes_short :
    (junk : HttpParserState) (text rest : Bytes) (msg : HttpMessage) (body : Bytes)
    (g : Goes (fresh junk) text (IsRead msg body))
    → parse none junk (text ++ rest) ≡ done (saved_in g.to, length text)
unfolding resume
goes_short junk text rest msg body g =
    parse-feed none junk (text ++ rest) tt
    ∙ ap (λ m. m >>= λ r. done (saved_in r.0, r.1))
        (g.reaches 0 rest
          ∙ feed_complete rest g.to (0 + length text) (ap is_complete g.holds.state_is)
          ∙ ap (λ n. done (g.to, n)) (omega arith))

-- A message whose body has been put together by two calls of `httpc_Message_appendBody` does not
-- survive: it is encoded with two Content-Lengths, the parser goes by the older one, takes the first
-- part for the whole body, reports a complete message, and leaves the bytes of the second part to be
-- taken for the next message. This is for two parts that are not empty, the first of less than 2 ^ 31
-- bytes, on a message without a body, a `bodylen` or a Content-Length, with a start line of three
-- solid parts and headers that can be written in a line.
pub parse-append_body_twice :
    (junk : HttpParserState) (msg : HttpMessage) (p1 p2 p3 xs ys : Bytes)
    → msg.start_line ≡ record { p1 = some p1; p2 = some p2; p3 = some p3 }
    → IsStart p1 p2 p3
    → get_value msg content_length ≡ none
    → AllWritable (announcing (length xs + length ys) ∷ announcing (length xs) ∷ msg.headers)
    → msg.body ≡ none
    → msg.bodylen ≡ 0
    → xs ≢ []
    → ys ≢ []
    → length xs < 2 ^ 31
    → (sent : HttpMessage) × (text : Bytes) × (after : HttpMessage) × ((append_body
          (append_body (some msg) xs).1
          ys).1
        ≡ some sent)
      × (encode sent true ≡ some (text ++ ys))
      × (parse none junk (text ++ ys) ≡ done (after, length text))
      × (message_state (some after) ≡ http_complete)
      × (body_bytes after.body ≡ xs)
      × (body_bytes sent.body ≡ xs ++ ys)
unfolding message_state
parse-append_body_twice junk msg p1 p2 p3 xs ys e p none_yet w b z nx ny small =
    let sent = twice msg xs ys in
    let read = push_all (started p1 p2 p3) sent.headers in
    let keeps = push_all-keeps sent.headers (started p1 p2 p3) in
    let headers : read.headers ≡ reverse sent.headers =
      keeps.0 ∙ unfold create in (append-nil (reverse sent.headers)) in
    let length_is : getmsglen read ≡ pos (length xs) =
      same_length read (reversed sent) headers ∙ first_length msg xs ys none_yet small in
    let head = encode_start p1 p2 p3 in
    let text = head ++ (encode_headers sent.headers ++ (crlf ++ xs)) in
    let g : Goes (fresh junk) text (IsRead read xs) =
      message_goes junk p1 p2 p3 sent.headers xs p w (inl length_is) in
    (
      sent,
      text,
      saved_in g.to,
      append_body-twice msg xs ys b z nx ny,
      encode_text sent p1 p2 p3 e (omega (arith, length-append xs ys))
          ∙ ap some (
              sym (
                append_assoc head (encode_headers sent.headers ++ (crlf ++ xs)) ys
                ∙ ap (head ++◌) (append_assoc (encode_headers sent.headers) (crlf ++ xs) ys))),
      goes_short junk text ys read xs g,
      g.holds.state_is,
      g.holds.body_is,
      refl,
    )
