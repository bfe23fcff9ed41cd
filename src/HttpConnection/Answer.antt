-- ===== src/HttpConnection/Answer.antt =====
-- handle of httpsrv/client.c: a connection from the request to the answer on the wire.
use libsimple.Base.{
  ◌+◌, ◌<◌, ◌≡◌, refl, ap, sym, ◌∙◌, subst, true, false, Option, some, none, List, [], ◌++◌, Bytes,
  length, take, arith,
}
use libsimple.Base.Int.{pos}
use libsimple.HttpConnection.{
  SockRecv, make_request, make_default_response, send_res, handle_http, finish_reply, answer,
  handle,
}
use libsimple.HttpMessage.{
  HttpMessage, HttpParserState, create, set_start_line, set_value, encode, encode_start,
  encode_headers, crlf, body_bytes,
}
use libsimple.HttpServer.{SockSend, FileSystem, Reply, is_file, http_request, encoded, or_else}
use libsimple.HttpServer.Respond.{IsNotFound, http_request-IsNotFound}
use libsimple.HttpServer.Send.{capacity, send_data-capacity}
use libsimple.Outcome.{Outcome, done, ◌>>=◌}
use libsimple.Url.{Url, Match, part, parse_url}
use libsimple.Url.Parts.{parse_url-parts}

-- What goes over the wire for a response: as much of its encoding as the connection takes.
pub record Answered (res : HttpMessage) (sends : List SockSend) (out : Outcome Bytes) : Type 0 where
  pub text : Bytes
  pub encodes : encode res true ≡ some text
  pub sent : out ≡ done (take (capacity sends) text)

-- send_res of a message with a start line, after a reply that has sent nothing.
reply_sent :
    (reply : Reply) (sends : List SockSend) (p1 p2 p3 : Bytes)
    → reply.rc ≡ some (pos 0)
    → reply.wire ≡ []
    → reply.left ≡ sends
    → reply.res.start_line ≡ record { p1 = some p1; p2 = some p2; p3 = some p3 }
    → Answered reply.res sends (finish_reply reply)
unfolding finish_reply send_res encode encoded
reply_sent reply sends p1 p2 p3 rc none_yet left start =
    let tail =
      encode_headers reply.res.headers
      ++ (crlf ++ take reply.res.bodylen (body_bytes reply.res.body)) in
    let text = encode_start p1 p2 p3 ++ tail in
    let encodes : encode reply.res true ≡ some text = rw start refl in
    record {
      text = text;
      encodes = encodes;
      sent =
          rw (rc, encodes, none_yet)
            (ap done (send_data-capacity reply.left text ∙ ap (λ l. take (capacity l) text) left));
    }

default_message :
    (make_default_response.header_cnt ≡ length make_default_response.headers)
    × (make_default_response.body ≡ none)
    × (make_default_response.bodylen ≡ 0)
unfolding make_default_response create or_else set_start_line set_value
default_message = (refl, refl, refl)

handled :
    (match_url match_auth : Bytes → Option Match) (fs : FileSystem) (root : Bytes)
    (evs : List SockSend) (req : HttpMessage) (p2 : Bytes) (url : Url) (reply : Reply)
    → req.start_line.p2 ≡ some p2
    → parse_url match_url match_auth p2 ≡ some url
    → http_request fs root evs url make_default_response ≡ done reply
    → answer match_url match_auth fs root evs (some req) ≡ finish_reply reply
unfolding answer handle_http
handled match_url match_auth fs root evs req p2 url reply second parsed replied =
    ground (arith, second, parsed, replied)

-- A connection from the request to the answer: where `make_request` gives a message with a second
-- part that the URL matcher matches, and its path fits into the buffer and names no regular file,
-- `handle` makes a 404 for the file it asks for, whose body and Content-Length fit each other, encodes
-- it with its body, and sends on the connection the first bytes of that, in order: exactly as many as
-- the connection accepts in all before a send fails, or all of them if it accepts that many.
pub handle-IsNotFound :
    (match_url match_auth : Bytes → Option Match) (fs : FileSystem) (root : Bytes)
    (junk : HttpParserState) (recvs left : List SockRecv) (sends : List SockSend)
    (req : HttpMessage) (p2 : Bytes) (subs : Match)
    → make_request junk recvs none ≡ done (some req, left)
    → req.start_line.p2 ≡ some p2
    → match_url p2 ≡ some subs
    → length root + length (part p2 (subs 5)) < 1024
    → is_file (fs.stat (root ++ part p2 (subs 5))) ≡ false
    → (res : HttpMessage) × IsNotFound (root ++ part p2 (subs 5)) res
      × Answered res sends (handle match_url match_auth fs root junk recvs sends)
unfolding handle
handle-IsNotFound match_url match_auth fs root junk recvs left sends req p2 subs made second matched
      short missing =
    let (url, parsed, port, path, query, pairs) =
      parse_url-parts match_url match_auth p2 subs matched in
    let (counted, body, bodylen) = default_message in
    let (reply, replied, rc, none_yet, left, answers) =
      http_request-IsNotFound fs root sends url make_default_response
        (subst (λ t. length root + length t < 1024) (sym path) short)
        (subst (λ t. is_file (fs.stat (root ++ t)) ≡ false) (sym path) missing) counted body
        bodylen in
    let shown = handled match_url match_auth fs root sends req p2 url reply second parsed replied in
    (
      reply.res,
      subst (λ t. IsNotFound (root ++ t) reply.res) path answers,
      subst (Answered reply.res sends)
          (sym (ap (◌>>= λ r. answer match_url match_auth fs root sends r.0) made ∙ shown))
          (reply_sent reply sends _ _ _ rc none_yet left answers.code),
    )
