-- ===== src/Tests/HttpMessage.antt =====
-- Runs of src/httpc.c, and its theorems at a small response.
use libsimple.Base.{◌≡◌, refl, true, none, some, [], ◌∷◌}
use libsimple.Clib.Text.{codes, strcaseeq}
use libsimple.HttpMessage.{HttpMessage, get_value, find_value, get_encode_length, encode}
use libsimple.HttpMessage.Encode.{announced, get_encode_length-encode}

abbrev response : HttpMessage
response = record {
  start_line = record {
    p1 = some (codes "HTTP/1.0");
    p2 = some (codes "200");
    p3 = some (codes "OK");
  };
  headers = record { key = codes "Server"; value = codes "s" } ∷ [];
  header_cnt = 1;
  body = some (codes "hi");
  bodylen = 2;
  pri_data = none;
}

encode-response : encode response true ≡ some (codes "HTTP/1.0 200 OK\r\nServer: s\r\n\r\nhi")
unfolding encode
encode-response = refl

get_value-response : get_value response (codes "SERVER") ≡ some (codes "s")
unfolding get_value find_value strcaseeq
get_value-response = refl

get_encode_length-encode_example :
    get_encode_length (some response) true ≡ announced (encode response true)
get_encode_length-encode_example = get_encode_length-encode response true refl
