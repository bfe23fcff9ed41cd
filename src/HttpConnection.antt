-- ===== src/HttpConnection.antt =====
-- httpsrv/client.c: one connection of the example server, from the bytes received to the bytes sent.
-- What `recv` and `send` answer is a list of events.
pub mod Request
pub mod Answer
use libsimple.Base.{
  ℕ, zero, suc, ◌+◌, ◌-◌, min, Bool, true, false, not, ◌&&◌, ◌||◌, Option, none, some, List, [],
  ◌∷◌, ◌++◌, Bytes, length, take, drop, ltb, leb, ◌==◌, if◌then◌else◌,
}
use libsimple.Base.Int.{ℤ, pos, negsuc, minus_one}
use libsimple.Clib.Decimal.{decimal}
use libsimple.Clib.Text.{codes, strcaseeq}
use libsimple.HttpMessage.{
  HttpMessage, HttpParserState, http_body, http_complete, StartLine, create, set_start_line,
  set_value, append_body, get_encode_length, encode,
}
use libsimple.HttpParser.{parse, message_state}
use libsimple.Outcome.{Outcome, done, fault, diverges, ◌>>=◌}
use libsimple.Url.{Url, Match, parse_url}
use libsimple.HttpServer.{
  SockSend, Sending, send_data, FileSystem, Reply, http_request, encoded, or_else,
}

-- What one call of `recv` for one byte answers.
pub data SockRecv : Type 0 where
  byte : ℕ → SockRecv
  closed error : SockRecv

pub is_headed : HttpParserState → Bool
is_headed http_complete = true
is_headed http_body = true
is_headed _ = false

-- make_request: the message, if there is one, and the events that are left.
unfoldable pub make_request :
    HttpParserState
    → List SockRecv
    → Option HttpMessage
    → Outcome (Option HttpMessage × List SockRecv)
unfolding is_headed
make_request junk [] req = diverges
make_request junk (closed ∷ evs) req = done (none, evs)
make_request junk (error ∷ evs) req = done (none, evs)
make_request junk (byte c ∷ evs) req = parse req junk (c ∷ []) >>= λ r.
    elim (is_headed (message_state (some r.0))) [
      | true ↦ done (some r.0, evs)
      | false ↦ make_request junk evs (some r.0)
    ]

-- make_default_response
unfoldable pub make_default_response : HttpMessage
unfolding create or_else set_start_line set_value
make_default_response =
    let res = or_else create (
      set_start_line (some create) (some (codes "HTTP/1.0")) (some (codes "200"))
        (some (codes "OK"))) in
    set_value (set_value res (codes "Server") (codes "test_http_srv 1.0")) (codes "Connection")
      (codes "Close")

-- send_res: the response with its body
unfoldable pub send_res : List SockSend → HttpMessage → Outcome Sending
unfolding encoded
send_res evs res = encoded (encode res true) >>= λ text. done (send_data evs text)

-- handle_http; a request without a second part has no URL that could be given to the matcher.
unfoldable pub handle_http :
    (Bytes → Option Match)
    → (Bytes → Option Match)
    → FileSystem
    → Bytes
    → List SockSend
    → HttpMessage
    → HttpMessage
    → Outcome Reply
handle_http match_url match_auth fs root evs req res = elim req.start_line.p2 [
  | none ↦ fault
  | some p2 ↦ elim (parse_url match_url match_auth p2) [
    | none ↦ done (record { rc = some minus_one; res = res; wire = []; left = evs })
    | some url ↦ http_request fs root evs url res
  ]
]

-- what handle does with the result of handle_http: nothing more, or send_res
unfoldable pub finish_reply : Reply → Outcome Bytes
finish_reply r = elim r.rc [
  | none ↦ diverges
  | some rc ↦ elim rc [
    | negsuc n ↦ done r.wire
    | pos n ↦ elim (ltb 0 n) [
      | true ↦ done r.wire
      | false ↦ send_res r.left r.res >>= λ s. done (r.wire ++ s.wire)
    ]
  ]
]

unfoldable pub answer :
    (Bytes → Option Match)
    → (Bytes → Option Match)
    → FileSystem
    → Bytes
    → List SockSend
    → Option HttpMessage
    → Outcome Bytes
answer match_url match_auth fs root evs none = done []
answer match_url match_auth fs root evs (some req) =
    handle_http match_url match_auth fs root evs req make_default_response >>= finish_reply

-- handle: what is sent on the connection before it is closed.
unfoldable pub handle :
    (Bytes → Option Match)
    → (Bytes → Option Match)
    → FileSystem
    → Bytes
    → HttpParserState
    → List SockRecv
    → List SockSend
    → Outcome Bytes
unfolding answer finish_reply
handle match_url match_auth fs root junk recvs sends =
    make_request junk recvs none >>= λ r. answer match_url match_auth fs root sends r.0
