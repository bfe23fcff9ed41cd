-- ===== src/HttpServer/SendFile.antt =====
-- send_local_file of httpsrv/httprequest.c, as http_request calls it.
use libsimple.Base.{
  ℕ, zero, suc, ◌+◌, ◌<◌, ◌≤◌, ◌≡◌, ◌⊎◌, inl, inr, refl, ap, sym, ◌∙◌, subst, Bool, true, false,
  Option, some, none, List, [], ◌++◌, append-nil, append_assoc, Bytes, length, take, drop,
  take-append-drop, take_all, length-drop, length-append, arith, ltb,
}
use libsimple.Base.Int.{ℤ, pos, negsuc}
use libsimple.HttpMessage.{HttpMessage, encode}
use libsimple.HttpServer.{
  SockSend, Sending, Reply, FileSystem, FileStat, is_file, types, find_type,
  get_context_type_from_ext, strrchr, send_data, send_blocks, send_contents, send_header,
  after_part, reply_of, file_headers, encoded, send_local_file, build_filename, http_request,
}
use libsimple.HttpServer.Send.{HasFailure, IsStopped, IsSent, send_data-IsSent}
use libsimple.Outcome.{done}
use libsimple.Url.{Url}

-- A prefix has gone out: all, with this result; or less, since the connection has failed, or has done
-- all that it does.
pub record SentAs (rc : ℤ) (evs left : List SockSend) (from wire : Bytes) (result : Option ℤ)
    : Type 0 where
  pub rest : Bytes
  pub prefix : wire ++ rest ≡ from
  pub outcome : ((rest ≡ []) × (result ≡ some rc)) ⊎ ((0 < length rest) × IsStopped evs left result)

-- After a part that has gone out whole.
behind_part :
    (rc : ℤ) (evs between left : List SockSend) (part from wire : Bytes) (result : Option ℤ)
    → (HasFailure between → HasFailure evs)
    → SentAs rc between left from wire result
    → SentAs rc evs left (part ++ from) (part ++ wire) result
behind_part rc evs between left part from wire result before v = record {
  rest = v.rest;
  prefix = append_assoc part wire v.rest ∙ ap (part ++◌) v.prefix;
  outcome = elim v.outcome [
    | inl all ↦ inl all
    | inr (less, inl (e, failed)) ↦ inr (less, inl (e, before failed))
    | inr (less, inr waits) ↦ inr (less, inr waits)
  ];
}

-- A part that has not gone out whole ends it.
cut_short :
    (rc : ℤ) (evs left : List SockSend) (part from wire rest : Bytes) (result : Option ℤ)
    → wire ++ rest ≡ part
    → 0 < length rest
    → IsStopped evs left result
    → SentAs rc evs left (part ++ from) wire result
cut_short rc evs left part from wire rest result e less r = record {
  rest = rest ++ from;
  prefix = sym (append_assoc wire rest from) ∙ ap (◌++ from) e;
  outcome = inr (omega (arith, less, length-append rest from), r);
}

-- what the loop does after a block that has gone out, by whether it was the last one; and after any
abbrev go_further : Bool → ℕ → Sending → Bytes → Sending
go_further last fuel r from = elim last [
  | true ↦ record r { result = some (pos 1) }
  | false ↦ after_part r.wire (send_blocks fuel r.left (drop 4096 from))
]

abbrev go_on : Option ℤ → ℕ → Sending → Bytes → Sending
go_on result fuel r from = elim result [
  | none ↦ r
  | some rc ↦ elim rc [ negsuc n ↦ r | pos n ↦ go_further (ltb (length from) 4096) fuel r from ]
]

abbrev IsSentAs : List SockSend → Bytes → Sending → Type 0
IsSentAs evs from r = SentAs (pos 1) evs r.left from r.wire r.result

below : (a b : ℕ) → ltb a b ≡ true → a ≤ b
below a b h = ground arith

not_below : (a b : ℕ) → ltb a b ≡ false → b ≤ a
not_below a b h = ground arith

-- The blocks behind one that has gone out go out as they should.
abbrev Continues : ℕ → Bytes → Sending → Type 0
Continues fuel from r =
    4096 ≤ length from → IsSentAs r.left (drop 4096 from) (send_blocks fuel r.left (drop 4096 from))

after_block :
    (fuel : ℕ) (evs : List SockSend) (from : Bytes) (r : Sending)
    → (HasFailure r.left → HasFailure evs)
    → r.wire ≡ take 4096 from
    → Continues fuel from r
    → (last : Bool) → ltb (length from) 4096 ≡ last
    → IsSentAs evs from (go_further last fuel r from)
after_block fuel evs from r before e ih true h = record {
  rest = [];
  prefix = append-nil r.wire ∙ e ∙ take_all 4096 from (below (length from) 4096 h);
  outcome = inl (refl, refl);
}
after_block fuel evs from r before e ih false h =
    let rest = send_blocks fuel r.left (drop 4096 from) in
    subst (λ t. IsSentAs evs t (after_part r.wire rest))
      (ap (◌++ drop 4096 from) e ∙ take-append-drop 4096 from)
      (behind_part (pos 1) evs r.left rest.left r.wire (drop 4096 from) rest.wire rest.result before
        (ih (not_below (length from) 4096 h)))

block :
    (fuel : ℕ) (evs : List SockSend) (from : Bytes) (r : Sending)
    → IsSent evs (take 4096 from) r
    → Continues fuel from r
    → IsSentAs evs from (go_on r.result fuel r from)
block fuel evs from r v ih = elim v.outcome [
  | inl (all, zero_rc) ↦
      let e : r.wire ≡ take 4096 from =
        sym (append-nil r.wire) ∙ ap (r.wire ++◌) (sym all) ∙ v.prefix in
      subst (λ o. IsSentAs evs from (go_on o fuel r from)) (sym zero_rc)
        (after_block fuel evs from r v.fails_before e ih (ltb (length from) 4096) refl)
  | inr (less, why) ↦
      let stop : IsSentAs evs from r =
        subst (λ t. IsSentAs evs t r) (take-append-drop 4096 from)
          (cut_short (pos 1) evs r.left (take 4096 from) (drop 4096 from) r.wire v.rest r.result
            v.prefix less why) in
      elim why [
        | inl (failed, at) ↦ subst (λ o. IsSentAs evs from (go_on o fuel r from)) (sym failed) stop
        | inr (waits, over) ↦ subst (λ o. IsSentAs evs from (go_on o fuel r from)) (sym waits) stop
      ]
]

send_blocks-IsSentAs :
    (fuel : ℕ) (evs : List SockSend) (from : Bytes)
    → length from < fuel
    → IsSentAs evs from (send_blocks fuel evs from)
unfolding send_blocks
send_blocks-IsSentAs zero evs from f = absurd (omega arith)
send_blocks-IsSentAs (suc fuel) evs from f =
    let r = send_data evs (take 4096 from) in
    block fuel evs from r (send_data-IsSent evs (take 4096 from)) (λ many.
      send_blocks-IsSentAs fuel r.left (drop 4096 from)
        (omega (arith, many, length-drop 4096 from)))

-- The header, and the contents behind it.
abbrev IsReplied : List SockSend → Bytes → Reply → Type 0
IsReplied evs from r = SentAs (pos 1) evs r.left from r.wire r.rc

abbrev header_on : Option ℤ → Sending → HttpMessage → Option Bytes → Reply
header_on result r res from = elim result [
  | none ↦ reply_of res r
  | some rc ↦ elim rc [ negsuc n ↦ reply_of res r | pos n ↦ send_contents r.left res r.wire from ]
]

after_header :
    (evs : List SockSend) (res : HttpMessage) (head contents : Bytes) (r : Sending)
    → IsSent evs head r
    → IsReplied evs (head ++ contents) (header_on r.result r res (some contents))
unfolding send_contents
after_header evs res head contents r v = elim v.outcome [
  | inl (all, zero_rc) ↦
      let e : r.wire ≡ head = sym (append-nil r.wire) ∙ ap (r.wire ++◌) (sym all) ∙ v.prefix in
      let sent = send_blocks (suc (length contents)) r.left contents in
      subst (λ o. IsReplied evs (head ++ contents) (header_on o r res (some contents)))
        (sym zero_rc)
        (subst (λ t. SentAs (pos 1) evs sent.left (t ++ contents) (r.wire ++ sent.wire) sent.result)
          e
          (behind_part (pos 1) evs r.left sent.left r.wire contents sent.wire sent.result
            v.fails_before
            (send_blocks-IsSentAs (suc (length contents)) r.left contents (omega arith))))
  | inr (less, why) ↦
      let stop : SentAs (pos 1) evs r.left (head ++ contents) r.wire r.result =
        cut_short (pos 1) evs r.left head contents r.wire v.rest r.result v.prefix less why in
      elim why [
        | inl (failed, at) ↦
            subst (λ o. IsReplied evs (head ++ contents) (header_on o r res (some contents)))
              (sym failed) stop
        | inr (waits, over) ↦
            subst (λ o. IsReplied evs (head ++ contents) (header_on o r res (some contents)))
              (sym waits) stop
      ]
]

-- For a path that fits into the buffer and names a regular file with an extension that can be opened,
-- where the response can be encoded, `http_request` sends the response without a body, with the two
-- headers of the file (the Content-Length is the size modulo 2 ^ 32), and the contents of the file:
-- all of it, and it returns 1; or less than all of it, a prefix, and either the connection fails at
-- some point, and it returns -1, or it waits, and has used all that the connection does.
pub http_request-SentAs :
    (fs : FileSystem) (root : Bytes) (evs : List SockSend) (url : Url) (res : HttpMessage)
    (st : FileStat) (ext head contents : Bytes)
    → length root + length url.path < 1024
    → fs.stat (root ++ url.path) ≡ some st
    → is_file (some st) ≡ true
    → strrchr b'.' (root ++ url.path) ≡ some ext
    → encode (file_headers res (find_type types ext) st.size) false ≡ some head
    → fs.open_file (root ++ url.path) ≡ some contents
    → (reply : Reply) × (http_request fs root evs url res ≡ done reply)
      × SentAs (pos 1) evs reply.left (head ++ contents) reply.wire reply.rc
unfolding http_request build_filename send_local_file get_context_type_from_ext encoded send_header
http_request-SentAs fs root evs url res st ext head contents short there regular dot text opens =
    let res' = file_headers res (find_type types ext) st.size in
    let r = send_data evs head in
    (
      header_on r.result r res' (some contents),
      ground (arith, there, regular, dot, text, opens),
      after_header evs res' head contents r (send_data-IsSent evs head),
    )
