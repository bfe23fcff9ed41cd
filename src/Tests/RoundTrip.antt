-- ===== src/Tests/RoundTrip.antt =====
-- The theorems on an encoded message that is parsed, at a small response.
use libsimple.Base.{
  ℕ, ◌+◌, ◌<◌, subst, sym, ◌≡◌, refl, true, none, some, [], ◌∷◌, ◌++◌, Bytes, length, arith, inl,
}
use libsimple.Clib.Atoi.{atoi}
use libsimple.Clib.Decimal.{decimal, digits_onto}
use libsimple.Clib.Text.{codes, c_string, strcaseeq}
use libsimple.HttpMessage.{
  HttpMessage, HttpHeader, content_length, http_unknown, http_complete, get_value, find_value,
  append_body, encode, body_bytes,
}
use libsimple.HttpParser.{parse, message_state, getmsglen}
use libsimple.HttpParser.Appended.{announcing, parse-append_body_twice}
use libsimple.HttpParser.FirstLine.{IsStart}
use libsimple.HttpParser.ReadsHeaders.{IsWritable}
use libsimple.HttpParser.RoundTrip.{reversed, parse-encode}
use libsimple.HttpParser.Inv.{IsWhole}
use libsimple.Outcome.{done}

abbrev length_header : HttpHeader
length_header = announcing 2

abbrev hi : HttpMessage
hi = record {
  start_line = record {
    p1 = some (codes "HTTP/1.0");
    p2 = some (codes "200");
    p3 = some (codes "OK");
  };
  headers = length_header ∷ [];
  header_cnt = 1;
  body = some (codes "hi");
  bodylen = 2;
  pri_data = none;
}

ok-IsStart : IsStart (codes "HTTP/1.0") (codes "200") (codes "OK")
ok-IsStart = record {
  word1 = ground arith;
  word2 = ground arith;
  solid1 = ground arith;
  solid2 = ground arith;
  solid3 = ground arith;
  rest = ground arith;
  text1 = ground arith;
  text2 = ground arith;
  text3 = ground arith;
}

digit : (n : ℕ) → n < 10 → decimal n ≡ (b'0' + n) ∷ []
unfolding decimal digits_onto
digit n h = ground arith

digit-IsWritable :
    (n : ℕ) → n < 10 → IsWritable (record { key = content_length; value = (b'0' + n) ∷ [] })
digit-IsWritable n h = record {
  printable = record {
    no_colon = ground arith;
    key_start = refl;
    key_end = refl;
    two = λ c e. ground arith;
    value_start = ground arith;
    value_end = ground arith;
    key_text = ground arith;
    value_text = ground arith;
  };
  key_line = ground arith;
  value_line = ground arith;
}

announcing-IsWritable : (n : ℕ) → n < 10 → IsWritable (announcing n)
announcing-IsWritable n h =
    subst (λ t. IsWritable (record { key = content_length; value = t })) (sym (digit n h))
      (digit-IsWritable n h)

hi-IsWhole : IsWhole (reversed hi)
unfolding getmsglen get_value find_value strcaseeq atoi c_string decimal digits_onto
hi-IsWhole = inl refl

parse-encode_example :
    (text : Bytes) × (after : HttpMessage) × (encode hi true ≡ some text)
    × (parse none http_unknown text ≡ done (after, length text))
    × (message_state (some after) ≡ http_complete)
    × (after.start_line ≡ hi.start_line)
    × (after.headers ≡ length_header ∷ [])
    × (body_bytes after.body ≡ codes "hi")
parse-encode_example =
    parse-encode http_unknown hi (codes "HTTP/1.0") (codes "200") (codes "OK") refl ok-IsStart
      (announcing-IsWritable 2 (omega arith), tt) refl hi-IsWhole

abbrev no_body : HttpMessage
no_body = record hi { headers = []; header_cnt = 0; body = none; bodylen = 0 }

no_body-no_length : get_value no_body content_length ≡ none
unfolding get_value find_value
no_body-no_length = refl

parse-append_body_twice_example :
    (sent : HttpMessage) × (text : Bytes) × (after : HttpMessage) × ((append_body
        (append_body (some no_body) (codes "hi")).1
        (codes "ho")).1
      ≡ some sent)
    × (encode sent true ≡ some (text ++ codes "ho"))
    × (parse none http_unknown (text ++ codes "ho") ≡ done (after, length text))
    × (message_state (some after) ≡ http_complete)
    × (body_bytes after.body ≡ codes "hi")
    × (body_bytes sent.body ≡ codes "hi" ++ codes "ho")
parse-append_body_twice_example =
    parse-append_body_twice http_unknown no_body (codes "HTTP/1.0") (codes "200") (codes "OK")
      (codes "hi") (codes "ho") refl ok-IsStart no_body-no_length
      (announcing-IsWritable 4 (omega arith), (announcing-IsWritable 2 (omega arith), tt)) refl refl
      (λ e. cc e) (λ e. cc e) (omega arith)
