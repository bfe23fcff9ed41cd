-- ===== src/Tests/HttpServer.antt =====
-- The theorems on httpsrv at an empty directory, a directory full of files, and a short request.
use libsimple.Base.{
  Option, length, ◌==◌, if◌then◌else◌, ◌≡◌, refl, true, false, none, some, List, [], ◌∷◌, ◌++◌,
  Bytes, arith,
}
use libsimple.Base.Int.{pos}
use libsimple.Clib.Text.{codes, c_string, find_crlf, strcaseeq}
use libsimple.HttpConnection.{SockRecv, closed, make_request, handle}
use libsimple.HttpConnection.Request.{received, Explained, make_request-Explained}
use libsimple.HttpMessage.{
  http_unknown, http_complete, http_startline, HttpMessage, create, encode, encode_headers,
  set_value, get_value, find_value,
}
use libsimple.HttpParser.{
  parse, resume, fresh, loop, turn, byte_in, append, getmsglen, parse_start_line, parse_header_line,
  append_to_body, starts_crlf, message_state,
}
use libsimple.Clib.Decimal.{decimal, digits_onto}
use libsimple.Clib.Atoi.{atoi}
use libsimple.HttpServer.{
  accepts, fails, FileSystem, Reply, is_file, strrchr, find_type, http_request,
}
use libsimple.HttpServer.Respond.{IsNotFound}
use libsimple.HttpServer.SendFile.{SentAs, http_request-SentAs}
use libsimple.HttpConnection.Answer.{Answered, handle-IsNotFound}
use libsimple.Outcome.{done}
use libsimple.Url.{Url, Match, my_strndup}

-- a URL with nothing but a path
abbrev url_to : Bytes → Url
url_to path = record {
  schema = codes "http";
  username = [];
  passwd = [];
  host = codes "h";
  port = codes "80";
  path = path;
  query = [];
  fragment = [];
  query_pairs = [];
}

abbrev no_files : FileSystem
no_files = record { stat = λ name. none; open_file = λ name. none }

-- every name is a regular file
abbrev all_files : FileSystem
all_files = record {
  stat = λ name. some (record { size = 1; is_dir = false; has_format = true });
  open_file = λ name. some (codes "x");
}

abbrev script : List SockRecv
script = received (codes "GET / HTTP/1.0\r\n\r\n") ++ (closed ∷ [])

make_request-Explained_example :
    Explained http_unknown script (make_request http_unknown script none)
make_request-Explained_example = make_request-Explained http_unknown script

abbrev plain : HttpMessage
plain = record create {
  start_line = record {
    p1 = some (codes "HTTP/1.0");
    p2 = some (codes "200");
    p3 = some (codes "OK");
  };
}

http_request-SentAs_example :
    (reply : Reply) × (http_request all_files
        (codes "/srv")
        (accepts 40 ∷ [])
        (url_to (codes "/a.txt"))
        plain
      ≡ done reply)
    × SentAs
        (pos 1)
        (accepts 40 ∷ [])
        reply.left
        (codes "HTTP/1.0 200 OK\r\nContent-Length: 1\r\nContent-Type: text/plain\r\n\r\nx")
        reply.wire
        reply.rc
unfolding is_file create strrchr find_type encode set_value decimal digits_onto strcaseeq
    encode_headers
http_request-SentAs_example =
    http_request-SentAs all_files (codes "/srv") (accepts 40 ∷ []) (url_to (codes "/a.txt")) plain
      (record { size = 1; is_dir = false; has_format = true }) (codes ".txt") _ (codes "x")
      (omega arith) refl refl refl refl refl

abbrev asked : HttpMessage
asked = record {
  start_line = record {
    p1 = some (codes "GET");
    p2 = some (codes "/a");
    p3 = some (codes "HTTP/1.0");
  };
  headers = [];
  header_cnt = 0;
  body = none;
  bodylen = 0;
  pri_data = some (record {
    linedata = codes "\r\n";
    line_bufsize = 128;
    state = http_complete;
    last_state = http_startline;
  });
}

made :
    make_request http_unknown (received (codes "GET /a HTTP/1.0\r\n\r\n")) none
    ≡ done (some asked, [])
unfolding make_request parse resume fresh loop turn byte_in append getmsglen parse_start_line
    parse_header_line append_to_body starts_crlf set_value get_value find_value strcaseeq atoi
    c_string find_crlf message_state
made = refl

-- the matcher says that the whole text is the path
abbrev all_path : Bytes → Option Match
all_path s = some (λ i. if i == 5 then some (0, length s) else none)

handle-IsNotFound_example :
    (res : HttpMessage) × IsNotFound (codes "/srv/a") res
    × Answered res (accepts 5 ∷ fails ∷ []) (
        handle all_path all_path no_files
          (codes "/srv")
          http_unknown
          (received (codes "GET /a HTTP/1.0\r\n\r\n"))
          (accepts 5 ∷ fails ∷ []))
unfolding is_file my_strndup c_string
handle-IsNotFound_example =
    handle-IsNotFound all_path all_path no_files (codes "/srv") http_unknown
      (received (codes "GET /a HTTP/1.0\r\n\r\n")) [] (accepts 5 ∷ fails ∷ []) asked (codes "/a")
      (λ i. if i == 5 then some (0, 2) else none) made refl refl (omega arith) refl
