-- ===== src/HttpMessage.antt =====
-- src/httpc.c and the types of include/simple/httpparser.h: an HTTP message, its header list and
-- its encoding. A pointer that may be null is an `Option`; memory is not modelled but for that.
pub mod Headers
pub mod Body
pub mod Encode
use libsimple.Base.{
  ℕ, ◌+◌, Bool, true, false, Option, none, some, List, [], ◌∷◌, ◌++◌, Bytes, length, if◌then◌else◌,
  take,
}
use libsimple.Base.Int.{ℤ, pos, minus_one}
use libsimple.Clib.Text.{strcaseeq, codes}
use libsimple.Clib.Decimal.{decimal}

-- enum HttpParserState
pub data HttpParserState : Type 0 where
  http_unknown http_startline http_headers http_body : HttpParserState
  http_complete http_cr http_crlf http_lsw : HttpParserState

-- struct ParserData; `linedata` is the `line_datasize` bytes in use of the `line_bufsize` bytes
-- allocated.
pub record ParserData : Type 0 where
  pub linedata : Bytes
  pub line_bufsize : ℕ
  pub state : HttpParserState
  pub last_state : HttpParserState

-- struct HttpHeader
pub record HttpHeader : Type 0 where
  pub key : Bytes
  pub value : Bytes

-- the `StartLine` of a message
pub record StartLine : Type 0 where
  pub p1 : Option Bytes
  pub p2 : Option Bytes
  pub p3 : Option Bytes

-- struct HttpMessage; `headers` in the order of `list_for_each`.
pub record HttpMessage : Type 0 where
  pub start_line : StartLine
  pub headers : List HttpHeader
  pub header_cnt : ℕ
  pub body : Option Bytes
  pub bodylen : ℕ
  pub pri_data : Option ParserData

-- httpc_Message_create
unfoldable pub create : HttpMessage
create = record {
  start_line = record { p1 = none; p2 = none; p3 = none };
  headers = [];
  header_cnt = 0;
  body = none;
  bodylen = 0;
  pri_data = none;
}

-- httpc_Message_setStartLine
unfoldable pub set_start_line :
    Option HttpMessage → Option Bytes → Option Bytes → Option Bytes → Option HttpMessage
set_start_line (some msg) (some p1) (some p2) (some p3) =
    some (record msg { start_line = record { p1 = some p1; p2 = some p2; p3 = some p3 } })
set_start_line msg _ _ _ = msg

-- _make_kvpair
abbrev pub make_kvpair : Bytes → Bytes → HttpHeader
make_kvpair key value = record { key = key; value = value }

-- httpc_Message_setValue: the new pair goes to the front of the list.
unfoldable pub set_value : HttpMessage → Bytes → Bytes → HttpMessage
set_value msg key value = record msg {
  headers = make_kvpair key value ∷ msg.headers;
  header_cnt = msg.header_cnt + 1;
}

-- the loop of httpc_Message_getValue
unfoldable pub find_value : List HttpHeader → Bytes → Option Bytes
find_value [] key = none
find_value (h ∷ headers) key = if strcaseeq h.key key then some h.value else find_value headers key

-- httpc_Message_getValue; `none` is its 0.
unfoldable pub get_value : HttpMessage → Bytes → Option Bytes
get_value msg key = find_value msg.headers key

-- the loop of httpc_Message_delValue
unfoldable pub delete_values : List HttpHeader → Bytes → List HttpHeader
delete_values [] key = []
delete_values (h ∷ headers) key =
    let rest = delete_values headers key in if strcaseeq h.key key then rest else h ∷ rest

-- httpc_Message_delValue
unfoldable pub del_value : HttpMessage → Bytes → HttpMessage
del_value msg key = record msg { headers = delete_values msg.headers key }

-- the bytes of a body; none where its pointer is null
abbrev pub body_bytes : Option Bytes → Bytes
body_bytes none = []
body_bytes (some b) = b

abbrev pub content_length : Bytes
content_length = codes "Content-Length"

-- `realloc` of the body and `memcpy` behind its old end
abbrev pub extend_body : HttpMessage → Bytes → HttpMessage
extend_body msg from = record msg {
  body = some (body_bytes msg.body ++ from);
  bodylen = msg.bodylen + length from;
}

append_some : HttpMessage → Bytes → HttpMessage
append_some msg from =
    let msg' = extend_body msg from in set_value msg' content_length (decimal msg'.bodylen)

-- httpc_Message_appendBody: the result, and the message.
unfoldable pub append_body : Option HttpMessage → Bytes → ℤ × Option HttpMessage
unfolding append_some
append_body none from = (minus_one, none)
append_body (some msg) [] = (pos msg.bodylen, some msg)
append_body (some msg) (c ∷ from) =
    let msg' = append_some msg (c ∷ from) in (pos msg'.bodylen, some msg')

-- httpc_Message_clearBody
unfoldable pub clear_body : Option HttpMessage → Option HttpMessage
clear_body none = none
clear_body (some msg) = some (record msg { body = none; bodylen = 0 })

-- httpc_Message_getBody: the result, and what goes to `*data`.
unfoldable pub get_body : Option HttpMessage → ℤ × Option Bytes
get_body none = (minus_one, none)
get_body (some msg) = (pos msg.bodylen, msg.body)

-- the first loop over the headers in httpc_Message_get_encode_length
unfoldable pub headers_length : List HttpHeader → ℕ → ℕ
headers_length [] len = len
headers_length (h ∷ headers) len =
    headers_length headers (len + (length h.key + 2) + length h.value + 2)

encode_length_of : HttpMessage → Bytes → Bytes → Bytes → Bool → ℕ
encode_length_of msg p1 p2 p3 with_body =
    let start = (length p1 + 1) + (length p2 + 1) + length p3 + 2 in
    let len = headers_length msg.headers start + 2 in if with_body then len + msg.bodylen else len

encode_length_start : StartLine → HttpMessage → Bool → ℤ
encode_length_start start msg with_body = elim start.p1 [
  | none ↦ minus_one
  | some p1 ↦ elim start.p2 [
    | none ↦ minus_one
    | some p2 ↦ elim start.p3 [
      | none ↦ minus_one
      | some p3 ↦ pos (encode_length_of msg p1 p2 p3 with_body)
    ]
  ]
]

-- httpc_Message_get_encode_length
unfoldable pub get_encode_length : Option HttpMessage → Bool → ℤ
unfolding encode_length_start encode_length_of headers_length
get_encode_length none with_body = minus_one
get_encode_length (some msg) with_body = encode_length_start msg.start_line msg with_body

abbrev pub crlf : Bytes
crlf = b'\r' ∷ b'\n' ∷ []

-- `sprintf(p, "%s: %s\r\n", h->key, h->value)`, for each header
unfoldable pub encode_headers : List HttpHeader → Bytes
encode_headers [] = []
encode_headers (h ∷ headers) =
    h.key ++ (b':' ∷ b' ' ∷ (h.value ++ (crlf ++ encode_headers headers)))

abbrev pub encode_start : Bytes → Bytes → Bytes → Bytes
encode_start p1 p2 p3 = p1 ++ (b' ' ∷ (p2 ++ (b' ' ∷ (p3 ++ crlf))))

-- httpc_Message_encode: the bytes put into `buf`. `none` is a start line with a null part, which
-- `sprintf` must not be given.
unfoldable pub encode : HttpMessage → Bool → Option Bytes
unfolding encode_headers
encode msg with_body = elim msg.start_line.p1 [
  | none ↦ none
  | some p1 ↦ elim msg.start_line.p2 [
    | none ↦ none
    | some p2 ↦ elim msg.start_line.p3 [
      | none ↦ none
      | some p3 ↦ some (
          encode_start p1 p2 p3
          ++ (encode_headers msg.headers
              ++ (crlf ++ (if with_body then take msg.bodylen (body_bytes msg.body) else []))))
    ]
  ]
]
