-- ===== src/HttpServer/Respond.antt =====
-- http_request, ret_404 and send_local_file of httpsrv/httprequest.c.
use libsimple.Base.{
  ◌+◌, ◌≤◌, ◌<◌, ◌≡◌, ◌≢◌, refl, ap, sym, ◌∙◌, false, some, none, List, [], ◌∷◌, ◌++◌, Bytes,
  length, take, length-append, length-take, arith, subst,
}
use libsimple.Base.Int.{pos}
use libsimple.Clib.Text.{codes}
use libsimple.HttpMessage.{HttpMessage, body_bytes, set_start_line, set_value}
use libsimple.HttpMessage.Body.{Appended, append_body-Appended, announced_length}
use libsimple.HttpMessage.Encode.{IsSized}
use libsimple.HttpMessage.Headers.{IsCounted}
use libsimple.HttpServer.{
  SockSend, FileSystem, Reply, is_file, not_found_body, or_else, ret_404, build_filename,
  http_request,
}
use libsimple.Outcome.{done}
use libsimple.Url.{Url}

-- A 404 as it should be: the text with its terminating NUL is the whole body, which the message
-- counts and announces rightly, and the start line says 404.
pub record IsNotFound (path : Bytes) (res : HttpMessage) : Type 0 where
  pub code : res.start_line ≡ record {
    p1 = some (codes "HTTP/1.0");
    p2 = some (codes "404");
    p3 = some (codes "File Not Found");
  }
  pub text : body_bytes res.body ≡ not_found_body path
  pub sized : IsSized res
  pub counted : IsCounted res
  pub announces : announced_length res ≡ some (pos (length (not_found_body path)))

not_found_body-length :
    (path : Bytes) → (0 < length (not_found_body path)) × (length (not_found_body path) ≤ 1024)
not_found_body-length path = omega (
  arith,
  length-append (take 1023 (codes "NOT found " ++ path)) (0 ∷ []),
  length-take 1023 (codes "NOT found " ++ path),
)

not_empty : (s : Bytes) → 0 < length s → s ≢ []
not_empty [] h e = absurd (omega arith)
not_empty (c ∷ s) h e = absurd (ground arith)

-- the message before the body is appended
abbrev headed_404 : HttpMessage → HttpMessage
headed_404 res = record res {
  start_line = record {
    p1 = some (codes "HTTP/1.0");
    p2 = some (codes "404");
    p3 = some (codes "File Not Found");
  };
  headers = record { key = codes "Content-Type"; value = codes "text/plain" } ∷ res.headers;
  header_cnt = res.header_cnt + 1;
}

ret_404-IsNotFound :
    (res : HttpMessage) (path : Bytes)
    → IsCounted res
    → res.body ≡ none
    → res.bodylen ≡ 0
    → IsNotFound path (ret_404 res path)
unfolding ret_404 or_else set_start_line set_value
ret_404-IsNotFound res path k b z =
    let text = not_found_body path in
    let empty : body_bytes res.body ≡ [] = ap body_bytes b in
    let (positive, small) = not_found_body-length path in
    let a : Appended (headed_404 res) text _ _ =
      append_body-Appended (headed_404 res) text (omega (arith, ap length empty)) (omega arith)
        (not_empty text positive) (omega arith) in
    subst (IsNotFound path) (sym (ap (or_else (headed_404 res)) a.is_out)) (record {
      code = a.start;
      text = a.text ∙ ap (◌++ text) empty;
      sized = a.sized;
      counted = a.counted;
      announces =
          a.announces ∙ ap (λ n. some (pos n)) (a.sized ∙ ap length (a.text ∙ ap (◌++ text) empty));
    })

-- For a path that fits into the buffer and names no regular file, `http_request` sends nothing by
-- itself and returns 0, and makes of a response without a body and with the right header count a
-- 404, with the right header count, whose body says which file it is, at most 1023 bytes of that
-- with a NUL, and whose Content-Length is the length of that body.
pub http_request-IsNotFound :
    (fs : FileSystem) (root : Bytes) (evs : List SockSend) (url : Url) (res : HttpMessage)
    → length root + length url.path < 1024
    → is_file (fs.stat (root ++ url.path)) ≡ false
    → IsCounted res
    → res.body ≡ none
    → res.bodylen ≡ 0
    → (reply : Reply) × (http_request fs root evs url res ≡ done reply)
      × (reply.rc ≡ some (pos 0))
      × (reply.wire ≡ [])
      × (reply.left ≡ evs)
      × IsNotFound (root ++ url.path) reply.res
unfolding http_request build_filename
http_request-IsNotFound fs root evs url res short missing k b z = (
  record { rc = some (pos 0); res = ret_404 res (root ++ url.path); wire = []; left = evs },
  ground arith,
  refl,
  refl,
  refl,
  ret_404-IsNotFound res (root ++ url.path) k b z,
)
