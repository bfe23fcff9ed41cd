-- ===== src/Tests/HttpParser.antt =====
-- Runs of src/httpparser.c, and its theorems at a request cut in two.
use libsimple.Base.{ℕ, ◌≡◌, refl, Option, none, some, ◌++◌, Bytes}
use libsimple.Clib.Text.{codes, c_string, find_crlf, strcaseeq}
use libsimple.Clib.Atoi.{atoi}
use libsimple.HttpMessage.{
  HttpMessage, http_unknown, http_headers, set_value, get_value, find_value,
}
use libsimple.HttpParser.{
  parse, resume, fresh, loop, turn, byte_in, append, getmsglen, parse_start_line, parse_header_line,
  append_to_body, starts_crlf,
}
use libsimple.HttpParser.Complete.{Parsed, parse-Parsed}
use libsimple.HttpParser.Incremental.{parse-append, then_parse}
use libsimple.Outcome.{Outcome, done, fault, ◌>>=◌, Holds}

abbrev request : Bytes
request = codes "POST /a HTTP/1.0\r\nContent-Length: 3\r\n\r\nabc"

-- the body and the number of bytes used
abbrev body_used : Outcome (HttpMessage × ℕ) → Option Bytes × ℕ
body_used (done r) = (r.0.body, r.1)
body_used _ = (none, 0)

parse-request : body_used (parse none http_unknown request) ≡ (some (codes "abc"), 42)
unfolding parse resume fresh loop turn byte_in append getmsglen parse_start_line parse_header_line
    append_to_body starts_crlf set_value get_value find_value strcaseeq atoi c_string find_crlf
parse-request = refl

-- A header with no value: the length that is handed to `memcpy` is negative.
parse_no_value : parse none http_unknown (codes "GET / HTTP/1.0\r\nHost:\r\n\r\n") ≡ fault
unfolding parse resume fresh loop turn byte_in append getmsglen parse_start_line parse_header_line
    append_to_body starts_crlf set_value get_value find_value strcaseeq atoi c_string find_crlf
parse_no_value = refl

parse-append_example :
    parse none http_unknown (codes "GET / HT" ++ codes "TP/1.0\r\n\r\n")
    ≡ parse none http_unknown (codes "GET / HT")
      >>= then_parse http_headers (codes "TP/1.0\r\n\r\n")
parse-append_example =
    parse-append none http_unknown http_headers (codes "GET / HT") (codes "TP/1.0\r\n\r\n") tt

parse-Parsed_example : Holds (Parsed request) (parse none http_unknown request)
parse-Parsed_example = parse-Parsed none http_unknown request tt
