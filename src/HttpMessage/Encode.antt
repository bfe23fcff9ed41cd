-- ===== src/HttpMessage/Encode.antt =====
-- The encoding of a message and its announced length.
use libsimple.Base.{
  ℕ, ◌+◌, ◌≡◌, refl, Bool, Option, none, some, List, [], ◌∷◌, ◌++◌, Bytes, length, length-append,
  length-take, take, if◌then◌else◌, arith,
}
use libsimple.Base.Int.{ℤ, pos, minus_one}
use libsimple.HttpMessage.{
  HttpMessage, HttpHeader, body_bytes, headers_length, get_encode_length, crlf, encode_headers,
  encode_start, encode,
}

-- `bodylen` is the number of bytes that `body` points at.
abbrev pub IsSized : HttpMessage → Type 0
IsSized msg = msg.bodylen ≡ length (body_bytes msg.body)

headers_length-encode_headers :
    (headers : List HttpHeader) (len : ℕ)
    → headers_length headers len ≡ len + length (encode_headers headers)
unfolding headers_length encode_headers
headers_length-encode_headers [] len = omega arith
headers_length-encode_headers (h ∷ headers) len = omega (
  arith,
  headers_length-encode_headers headers (len + (length h.key + 2) + length h.value + 2),
  length-append h.key (b':' ∷ b' ' ∷ (h.value ++ (crlf ++ encode_headers headers))),
  length-append h.value (crlf ++ encode_headers headers),
)

length-encode_start :
    (p1 p2 p3 : Bytes)
    → length (encode_start p1 p2 p3) ≡ length p1 + 1 + (length p2 + 1) + length p3 + 2
length-encode_start p1 p2 p3 = omega (
  arith,
  length-append p1 (b' ' ∷ (p2 ++ (b' ' ∷ (p3 ++ crlf)))),
  length-append p2 (b' ' ∷ (p3 ++ crlf)),
  length-append p3 crlf,
)

-- The `int` that announces a text, or its absence.
abbrev pub announced : Option Bytes → ℤ
announced none = minus_one
announced (some text) = pos (length text)

-- The headers, the empty line and the body.
length-encode_rest :
    (headers : List HttpHeader) (tail : Bytes) (len : ℕ)
    → headers_length headers len + 2 + length tail
      ≡ len + length (encode_headers headers ++ (crlf ++ tail))
length-encode_rest headers tail len = omega (
  arith,
  headers_length-encode_headers headers len,
  length-append (encode_headers headers) (crlf ++ tail),
)

announced-encode :
    (msg : HttpMessage) (o1 o2 o3 : Option Bytes) (with_body : Bool)
    → IsSized msg
    → let msg' = record msg { start_line = record { p1 = o1; p2 = o2; p3 = o3 } } in
      get_encode_length (some msg') with_body ≡ announced (encode msg' with_body)
unfolding get_encode_length encode
announced-encode msg none o2 o3 with_body sized = refl
announced-encode msg (some p1) none o3 with_body sized = refl
announced-encode msg (some p1) (some p2) none with_body sized = refl
announced-encode msg (some p1) (some p2) (some p3) with_body sized =
    let text = body_bytes msg.body in
    let tail = if with_body then take msg.bodylen text else [] in
    ground (
      arith,
      length-encode_start p1 p2 p3,
      length-append (encode_start p1 p2 p3) (encode_headers msg.headers ++ (crlf ++ tail)),
      length-encode_rest msg.headers tail (length p1 + 1 + (length p2 + 1) + length p3 + 2),
      length-take msg.bodylen text,
    )

-- For a message whose `bodylen` is right, `httpc_Message_get_encode_length` is the number of bytes
-- that `httpc_Message_encode` writes, with the body and without, and -1 where there is nothing that
-- can be encoded.
pub get_encode_length-encode :
    (msg : HttpMessage) (with_body : Bool)
    → IsSized msg
    → get_encode_length (some msg) with_body ≡ announced (encode msg with_body)
get_encode_length-encode msg with_body sized =
    announced-encode msg start_line.p1 start_line.p2 start_line.p3 with_body sized
  where
    open msg use {start_line}
