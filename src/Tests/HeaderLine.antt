-- ===== src/Tests/HeaderLine.antt =====
-- The theorems on parseHeaderLine at two lines.
use libsimple.Base.{◌≡◌, refl, Bytes, arith}
use libsimple.Clib.Text.{codes}
use libsimple.HttpMessage.{HttpHeader, http_crlf, http_headers, create}
use libsimple.HttpParser.{Session, parse_header_line}
use libsimple.HttpParser.Line.{IsPrintable, parse_header_line-fault}
use libsimple.Outcome.{fault}

-- at the end of a header line
abbrev at_line : Bytes → Session
at_line line = record {
  msg = create;
  pd = record { linedata = line; line_bufsize = 128; state = http_crlf; last_state = http_headers };
}

abbrev host : HttpHeader
host = record { key = codes "Host"; value = codes "a b" }

host-IsPrintable : IsPrintable host
host-IsPrintable = record {
  no_colon = ground arith;
  key_start = refl;
  key_end = refl;
  two = λ c e. ground arith;
  value_start = refl;
  value_end = refl;
  key_text = ground arith;
  value_text = ground arith;
}

parse_header_line-fault_example : parse_header_line (at_line (codes "Host:\r\n")) ≡ fault
parse_header_line-fault_example =
    parse_header_line-fault (at_line (codes "Host:\r\n")) (codes "Host") (codes "\r\n") refl
      (ground arith) (refl, (refl, tt)) (omega arith)
