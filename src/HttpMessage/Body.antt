-- ===== src/HttpMessage/Body.antt =====
-- The body of a message and the header that announces its length.
use libsimple.Base.{
  ℕ, ◌+◌, ◌^◌, ◌<◌, ◌≡◌, ◌≢◌, refl, ap, ◌∙◌, Option, none, some, [], ◌∷◌, ◌++◌, Bytes, length,
  length-append, arith, true, if◌then◌else◌,
}
use libsimple.Base.Int.{ℤ, pos}
use libsimple.Clib.Atoi.{atoi}
use libsimple.Clib.Decimal.{decimal, atoi-decimal}
use libsimple.Clib.Text.{strcaseeq, strcaseeq_iff}
use libsimple.HttpMessage.{
  HttpMessage, content_length, body_bytes, extend_body, set_value, get_value, append_body,
  clear_body,
}
use libsimple.HttpMessage.Encode.{IsSized}
use libsimple.HttpMessage.Headers.{IsCounted, get_value-set_value}

abbrev pub as_number : Option Bytes → Option ℤ
as_number none = none
as_number (some v) = some (atoi v)

-- The number under which a message announces its body, read as the parser reads it.
abbrev pub announced_length : HttpMessage → Option ℤ
announced_length msg = as_number (get_value msg content_length)

pub same_key : strcaseeq content_length content_length ≡ true
same_key = (strcaseeq_iff content_length content_length).1 refl

pub announced-set_value :
    (msg : HttpMessage) (n : ℕ)
    → n < 2 ^ 31
    → announced_length (set_value msg content_length (decimal n)) ≡ some (pos n)
announced-set_value msg n h =
    ap as_number (
      get_value-set_value msg content_length (decimal n) content_length
      ∙ ap (λ b. if b then some (decimal n) else get_value msg content_length) same_key)
    ∙ ap some (atoi-decimal n h)

-- What `httpc_Message_appendBody` does with a message and some bytes.
pub record Appended (msg : HttpMessage) (from : Bytes) (r : ℤ) (out : Option HttpMessage)
    : Type 0 where
  pub after : HttpMessage
  pub is_out : out ≡ some after
  pub result : r ≡ pos (msg.bodylen + length from)
  pub text : body_bytes after.body ≡ body_bytes msg.body ++ from
  pub sized : IsSized after
  pub counted : IsCounted after
  pub announces : announced_length after ≡ some (pos after.bodylen)
  pub start : after.start_line ≡ msg.start_line

-- On a well-formed message, with at least one byte and a new length that is an `int`,
-- `httpc_Message_appendBody` returns that length, appends exactly those bytes, leaves the message
-- well-formed with its start line, and the Content-Length that is found from then on is the new
-- length, whatever was announced before.
pub append_body-Appended :
    (msg : HttpMessage) (from : Bytes)
    → IsSized msg
    → IsCounted msg
    → from ≢ []
    → msg.bodylen + length from < 2 ^ 31
    → let (r, out) = append_body (some msg) from in Appended msg from r out
unfolding append_body
append_body-Appended msg [] s k ne h = absurd (ne refl)
append_body-Appended msg (c ∷ from) s k ne h =
    let n = msg.bodylen + length (c ∷ from) in
    let after = (record msg {
      headers = record { key = content_length; value = decimal n } ∷ msg.headers;
      header_cnt = msg.header_cnt + 1;
      body = some (body_bytes msg.body ++ (c ∷ from));
      bodylen = n;
    }) in
    record {
      after = after;
      is_out = unfold set_value in refl;
      result = unfold set_value in refl;
      text = refl;
      sized = omega (arith, length-append (body_bytes msg.body) (c ∷ from));
      counted = omega arith;
      announces = unfold set_value in announced-set_value (extend_body msg (c ∷ from)) n h;
      start = refl;
    }

-- `httpc_Message_clearBody` removes the body and leaves the header that announces it: what is
-- announced does not change, though there is no body any more.
pub clear_body-announced :
    (msg : HttpMessage)
    → (after : HttpMessage) × (clear_body (some msg) ≡ some after)
      × IsSized after
      × (body_bytes after.body ≡ [])
      × (announced_length after ≡ announced_length msg)
unfolding clear_body get_value
clear_body-announced msg = (record msg { body = none; bodylen = 0 }, refl, refl, refl, refl)
