-- ===== src/HttpParser.antt =====
-- src/httpparser.c: the incremental HTTP parser. `pd` is the block that `msg->pri_data` points at:
-- `parse` takes it out of the message, the functions below take both, and `parse` puts it back.
pub mod Inv
pub mod Keeps
pub mod Steps
pub mod Feed
pub mod Chunks
pub mod Loop
pub mod Incremental
pub mod Complete
pub mod Line
pub mod Reads
pub mod ReadsLine
pub mod FirstLine
pub mod ReadsHeaders
pub mod ReadsMessage
pub mod RoundTrip
pub mod Appended
use libsimple.Base.{
  ℕ, zero, suc, ◌+◌, ◌-◌, min, Bool, true, false, not, ◌&&◌, ◌||◌, Option, none, some, List, [],
  ◌∷◌, ◌++◌, Bytes, length, take, drop, ltb, leb, ◌==◌, if◌then◌else◌,
}
use libsimple.Base.Int.{ℤ, pos, negsuc, sub_ℕ, is_positive, eq_ℕ}
use libsimple.Clib.Atoi.{atoi}
use libsimple.Clib.Text.{c_string, find_crlf}
use libsimple.HttpMessage.{
  HttpParserState, http_unknown, http_startline, http_headers, http_body, http_complete, http_cr,
  http_crlf, http_lsw, ParserData, HttpMessage, StartLine, content_length, get_value, set_value,
  extend_body, create,
}
use libsimple.Outcome.{Outcome, done, fault, diverges, ◌>>=◌}

pub record Session : Type 0 where
  pub msg : HttpMessage
  pub pd : ParserData

-- EXPSIZE
abbrev pub exp_size : ℕ
exp_size = 128

-- isblank
abbrev pub isblank : ℕ → Bool
isblank c = c == b' ' || c == b'\t'

-- isspace
abbrev pub isspace : ℕ → Bool
isspace c = isblank c || c == b'\r' || c == b'\n'

-- _append: the byte goes to `linedata[line_datasize]`, after the block has grown if it was full.
unfoldable pub append : ℕ → ParserData → ParserData
append c pd = record pd {
  line_bufsize =
      if ltb pd.line_bufsize (length pd.linedata + 1)
      then pd.line_bufsize + exp_size
      else pd.line_bufsize;
  linedata = pd.linedata ++ (c ∷ []);
}

abbrev pub length_value : Option Bytes → ℤ
length_value none = pos 0
length_value (some v) = atoi v

-- _getmsglen
unfoldable pub getmsglen : HttpMessage → ℤ
getmsglen msg = length_value (get_value msg content_length)

-- `for (; p < tail && !stop(*p); p++)`: what it passes, and where it stops.
unfoldable pub take_until : (ℕ → Bool) → Bytes → Bytes
take_until stop [] = []
take_until stop (c ∷ s) = if stop c then [] else c ∷ take_until stop s

unfoldable pub drop_until : (ℕ → Bool) → Bytes → Bytes
drop_until stop [] = []
drop_until stop (c ∷ s) = if stop c then c ∷ s else drop_until stop s

-- `while (p < tail && isspace(*p)) p++;`
unfoldable pub skip_space : Bytes → Bytes
skip_space [] = []
skip_space (c ∷ s) = if isspace c then skip_space s else c ∷ s

abbrev pub iseol : ℕ → Bool
iseol c = c == b'\r' || c == b'\n'

-- parseStartLine: each part is copied to `tmp`, and from there as a C string.
unfoldable pub parse_start_line : Session → Session
unfolding take_until drop_until skip_space
parse_start_line s =
    let line = s.pd.linedata in
    let p2 = skip_space (drop_until isspace line) in
    let p3 = skip_space (drop_until isspace p2) in
    record s {
      msg = record s.msg {
        start_line = record {
          p1 = some (c_string (take_until isspace line));
          p2 = some (c_string (take_until isspace p2));
          p3 = some (c_string (take_until iseol p3));
        };
      };
    }

-- the key before the first ':' and what follows it, if there is a ':'
unfoldable pub split_colon : Bytes → Option (Bytes × Bytes)
split_colon [] = none
split_colon (c ∷ s) =
    if c == b':'
    then some ([], s)
    else elim (split_colon s) [ none ↦ none | some (k, v) ↦ some (c ∷ k, v) ]

cons_trimmed : ℕ → Bytes → Bytes
cons_trimmed c [] = if isspace c then [] else c ∷ []
cons_trimmed c (d ∷ s) = c ∷ d ∷ s

-- `while (p > q && isspace(*p)) p--;`, from the last byte
unfoldable pub trim_end : Bytes → Bytes
unfolding cons_trimmed
trim_end [] = []
trim_end (c ∷ s) = cons_trimmed c (trim_end s)

pub value_end_of : Bytes → Bytes → ℕ
value_end_of v [] = min 1 (length v)
value_end_of v (c ∷ t) = length (c ∷ t)

-- `p + 1` after `p = tail - 1; while (p > q && isspace(*p)) p--;`, counted from behind the ':'
pub value_end : Bytes → ℕ
unfolding value_end_of
value_end v = value_end_of v (trim_end v)

-- `p-q+1`, after `while (*q && isspace(*q)) q++;`. Where all is white space `q` comes to the end of the
-- line, and goes on if what lies behind it in the buffer is white space too, which is taken not to be
-- so: a line ends with CR LF, so that the length is then negative in both cases.
pub value_length : Bytes → ℤ
unfolding value_end
value_length v = sub_ℕ (value_end v) (length v - length (skip_space v))

-- `memcpy(value, q, p-q+1)`, with undefined behaviour where the length is negative
pub copy_value : HttpMessage → Bytes → Bytes → ℤ → Outcome HttpMessage
copy_value msg key from (pos n) = done (set_value msg (c_string key) (c_string (take n from)))
copy_value msg key from (negsuc n) = fault

-- the value, from all that follows the ':'
pub header_value : HttpMessage → Bytes → Bytes → Outcome HttpMessage
unfolding value_length copy_value
header_value msg key v = copy_value msg key (skip_space v) (value_length v)

-- A key of one byte is `q == p`, and `key` is then read though nothing was written to it.
pub header_key : HttpMessage → Bytes → Bytes → Outcome HttpMessage
header_key msg (c ∷ []) value = fault
header_key msg [] value = header_value msg [] value
header_key msg (c ∷ d ∷ k) value = header_value msg (c ∷ d ∷ k) value

-- With no ':' in the line, `x` is behind `tail` and `p` before it: the length of the value is negative.
pub header_parts : HttpMessage → Option (Bytes × Bytes) → Outcome HttpMessage
header_parts msg none = fault
header_parts msg (some (k, v)) = header_key msg (trim_end k) v

-- parseHeaderLine
unfoldable pub parse_header_line : Session → Outcome Session
unfolding header_parts header_key header_value split_colon skip_space trim_end
parse_header_line s = header_parts s.msg (split_colon (skip_space s.pd.linedata)) >>= λ msg.
    done (record s { msg = msg })

-- `!strncmp(pd->linedata, "\r\n", 2)`
unfoldable pub starts_crlf : Bytes → Bool
starts_crlf (c ∷ d ∷ s) = c == b'\r' && d == b'\n'
starts_crlf _ = false

abbrev pub go_to : HttpParserState → Session → Session
go_to st s = record s { pd = record s.pd { state = st } }

abbrev pub appended : ℕ → Session → Session
appended c s = record s { pd = append c s.pd }

-- `case HTTP_STARTLINE` and `case HTTP_HEADERS`
unfoldable pub byte_in_line : HttpParserState → Session → ℕ → Session
byte_in_line st s c =
    let s' = appended c s in
    if c == b'\r' then record s' { pd = record s'.pd { state = http_cr; last_state = st } } else s'

-- `case HTTP_CR`
unfoldable pub byte_after_cr : Session → ℕ → Session
byte_after_cr s c =
    let s' = appended c s in
    if c == b'\n'
    then (if starts_crlf s'.pd.linedata
        then (if is_positive (getmsglen s.msg) then go_to http_body s' else go_to http_complete s')
        else go_to http_crlf s')
    else go_to s.pd.last_state s'

pub cut_line : Option ℕ → ParserData → ParserData
cut_line none pd = pd
cut_line (some n) pd = record pd { linedata = take n pd.linedata }

abbrev pub is_startline : HttpParserState → Bool
is_startline http_startline = true
is_startline _ = false

-- what `case HTTP_CRLF` does with the line that has ended
unfoldable pub finish_line : Session → Outcome Session
finish_line s =
    if is_startline s.pd.last_state then done (parse_start_line s) else parse_header_line s

-- `case HTTP_CRLF`
unfoldable pub byte_after_crlf : Session → ℕ → Outcome Session
byte_after_crlf s c =
    if isblank c
    then done
        (record s { pd = record (cut_line (find_crlf s.pd.linedata) s.pd) { state = http_lsw } })
    else finish_line s >>= λ s'. done (
        go_to (if c == b'\r' then http_cr else http_headers)
          (appended c (record s' { pd = record s'.pd { linedata = [] } })))

-- `case HTTP_LSW`
pub byte_in_lsw : Session → ℕ → Session
byte_in_lsw s c = if isblank c then s else appended c (go_to s.pd.last_state s)

-- appendBody of the parser, and `case HTTP_BODY` with one byte
unfoldable pub append_to_body : Session → Bytes → Session
append_to_body s from =
    let s' = record s { msg = extend_body s.msg from } in
    if eq_ℕ (getmsglen s.msg) s'.msg.bodylen then go_to http_complete s' else s'

-- appendByte, by the state that it switches on
unfoldable pub byte_in : HttpParserState → Session → ℕ → Outcome Session
unfolding byte_in_line byte_after_cr byte_after_crlf byte_in_lsw cut_line finish_line
byte_in http_startline s c = done (byte_in_line http_startline s c)
byte_in http_headers s c = done (byte_in_line http_headers s c)
byte_in http_cr s c = done (byte_after_cr s c)
byte_in http_crlf s c = byte_after_crlf s c
byte_in http_lsw s c = done (byte_in_lsw s c)
byte_in http_body s c = done (append_to_body s (c ∷ []))
byte_in http_complete s c = done s
byte_in http_unknown s c = done s

abbrev pub append_byte : Session → ℕ → Outcome Session
append_byte s = byte_in s.pd.state s

-- `bodylen - msg->bodylen`, if it is not negative
abbrev pub expected : ℤ → ℕ → Option ℕ
expected (pos total) have = if leb have total then some (total - have) else none
expected (negsuc n) have = none

-- A negative number of bytes goes to `memcpy` as a huge one.
pub body_chunk : Session → Bytes → Option ℕ → Outcome (Session × ℕ)
body_chunk s from none = fault
body_chunk s from (some expect) =
    let rc = min expect (length from) in done (append_to_body s (take rc from), rc)

-- the branch of the loop for HTTP_BODY; `atoi` must not be given a null pointer
pub body_step : Session → Bytes → Option Bytes → Outcome (Session × ℕ)
body_step s from none = fault
body_step s from (some v) = body_chunk s from (expected (atoi v) s.msg.bodylen)

-- one turn of the loop of httpc_parser_parse, by the state: the session, and `rc`
unfoldable pub turn : HttpParserState → Session → ℕ → Bytes → Outcome (Session × ℕ)
unfolding body_step body_chunk
turn http_body s c from = body_step s (c ∷ from) (get_value s.msg content_length)
turn st s c from = byte_in st s c >>= λ s'. done (s', 1)

abbrev pub is_complete : HttpParserState → Bool
is_complete http_complete = true
is_complete _ = false

-- The loop of httpc_parser_parse. A turn that uses no byte would be repeated for ever.
unfoldable pub loop : ℕ → Session → Bytes → ℕ → Outcome (Session × ℕ)
loop zero s from used = diverges
loop (suc fuel) s [] used = done (s, used)
loop (suc fuel) s (c ∷ from) used = elim (is_complete s.pd.state) [
  | true ↦ done (s, used)
  | false ↦ turn s.pd.state s c from >>= λ r. loop fuel r.0 (drop r.1 (c ∷ from)) (used + r.1)
]

-- A new message with its ParserData; `junk` is what `malloc` left in `last_state`.
unfoldable pub fresh : HttpParserState → Session
unfolding create
fresh junk = record {
  msg = create;
  pd = record { linedata = []; line_bufsize = 0; state = http_startline; last_state = junk };
}

-- the session to go on with; a saved message that the parser did not make has no ParserData
unfoldable pub resume : Option HttpMessage → HttpParserState → Outcome Session
resume none junk = done (fresh junk)
resume (some msg) junk = elim msg.pri_data [
  | none ↦ fault
  | some pd ↦ done (record { msg = record msg { pri_data = none }; pd = pd })
]

abbrev pub saved_in : Session → HttpMessage
saved_in s = record s.msg { pri_data = some s.pd }

-- httpc_parser_parse: the message, and `*used`.
unfoldable pub parse : Option HttpMessage → HttpParserState → Bytes → Outcome (HttpMessage × ℕ)
parse saved junk from =
    resume saved junk >>= λ s. loop (suc (length from)) s from 0 >>= λ r. done (saved_in r.0, r.1)

abbrev state_of : Option ParserData → HttpParserState
state_of none = http_unknown
state_of (some pd) = pd.state

-- httpc_Message_state
unfoldable pub message_state : Option HttpMessage → HttpParserState
message_state none = http_unknown
message_state (some msg) = state_of msg.pri_data
