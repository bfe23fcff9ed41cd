-- ===== src/HttpConnection/Request.antt =====
-- make_request of httpsrv/client.c, against one call of the parser.
use libsimple.Base.{
  ℕ, ◌+◌, ◌≡◌, refl, ap, sym, ◌∙◌, subst, Bool, true, false, Option, none, some, List, [], ◌∷◌,
  ◌++◌, append_assoc, append-nil, Bytes, ◌⊎◌, inl, inr, Bool-cases,
}
use libsimple.HttpMessage.{HttpMessage, HttpParserState}
use libsimple.HttpParser.{parse, message_state, resume, fresh, loop}
use libsimple.HttpParser.Complete.{Parsed, parse-Parsed}
use libsimple.HttpParser.Incremental.{IsSaved, parse-append, then_parse}
use libsimple.HttpConnection.{SockRecv, byte, closed, error, is_headed, make_request}
use libsimple.Outcome.{Outcome, done, fault, diverges, ◌>>=◌, Holds, >>=_assoc}

-- The events that deliver some bytes.
abbrev pub received : Bytes → List SockRecv
received [] = []
received (c ∷ s) = byte c ∷ received s

-- One call of the parser with the bytes gives a message, whose headers are complete or are not.
abbrev pub ParsedTo : HttpParserState → Bytes → Bool → HttpMessage → Type 0
ParsedTo junk text headed msg =
    (used : ℕ) × (parse none junk text ≡ done (msg, used))
    × (is_headed (message_state (some msg)) ≡ headed)

-- What make_request has done with the events, by what it comes to: it returns a message, which is
-- what the bytes received parse to, with complete headers; it returns none, since the connection
-- has ended before the headers have; it has undefined behaviour, as the parser has with the bytes
-- received; or it waits for more, and the headers are not complete.
abbrev pub Explained :
    HttpParserState → List SockRecv → Outcome (Option HttpMessage × List SockRecv) → Type 0
Explained junk evs (done (some msg, left)) =
    (text : Bytes) × (evs ≡ received text ++ left) × ParsedTo junk text true msg
Explained junk evs (done (none, left)) =
    (text : Bytes) × (msg : HttpMessage) × ((evs ≡ received text ++ (closed ∷ left))
      ⊎ (evs ≡ received text ++ (error ∷ left)))
    × ParsedTo junk text false msg
Explained junk evs fault =
    (text : Bytes) × (left : List SockRecv) × (evs ≡ received text ++ left)
    × (parse none junk text ≡ fault)
Explained junk evs diverges =
    (text : Bytes) × (msg : HttpMessage) × (evs ≡ received text) × ParsedTo junk text false msg

received-append : (xs ys : Bytes) → received (xs ++ ys) ≡ received xs ++ received ys
received-append [] ys = refl
received-append (x ∷ xs) ys = ap (byte x ∷◌) (received-append xs ys)

abbrev counted_by : (ℕ → ℕ) → HttpMessage × ℕ → Outcome (HttpMessage × ℕ)
counted_by f r = done (r.0, f r.1)

-- Where make_request stands: `seen` has been received, and `req` is what it parses to.
record Stands (junk : HttpParserState) (all : List SockRecv) (seen : Bytes) (evs : List SockRecv)
    (req : Option HttpMessage) : Type 0 where
  reads : all ≡ received seen ++ evs
  msg : HttpMessage
  unheaded : ParsedTo junk seen false msg
  saved : IsSaved req
  total : ℕ → ℕ
  parses :
      (from : Bytes) → parse none junk (seen ++ from) ≡ parse req junk from >>= counted_by total

module _ (junk : HttpParserState) (all : List SockRecv) where
  one_more :
      (seen : Bytes) (c : ℕ) (evs : List SockRecv)
      → all ≡ received seen ++ (byte c ∷ evs)
      → all ≡ received (seen ++ (c ∷ [])) ++ evs
  one_more seen c evs e =
      e
      ∙ sym (
          ap (◌++ evs) (received-append seen (c ∷ []))
          ∙ append_assoc (received seen) (byte c ∷ []) evs)

  parses_one :
      (seen : Bytes) (c : ℕ) (evs : List SockRecv) (req : Option HttpMessage)
      (s : Stands junk all seen (byte c ∷ evs) req) (o : Outcome (HttpMessage × ℕ))
      → parse req junk (c ∷ []) ≡ o
      → parse none junk (seen ++ (c ∷ [])) ≡ o >>= counted_by s.total
  parses_one seen c evs req s o e = s.parses (c ∷ []) ∙ ap (λ m. m >>= counted_by s.total) e

  one_more-Stands :
      (seen : Bytes) (c : ℕ) (evs : List SockRecv) (req : Option HttpMessage) (r : HttpMessage × ℕ)
      → Stands junk all seen (byte c ∷ evs) req
      → parse req junk (c ∷ []) ≡ done r
      → is_headed (message_state (some r.0)) ≡ false
      → Stands junk all (seen ++ (c ∷ [])) evs (some r.0)
  one_more-Stands seen c evs req r s e h = record {
    reads = one_more seen c evs s.reads;
    msg = r.0;
    unheaded = (s.total r.1, parses_one seen c evs req s (done r) e, h);
    saved =
        let parsed : Parsed (c ∷ []) r =
          subst (Holds (Parsed (c ∷ []))) e (parse-Parsed req junk (c ∷ []) s.saved) in
        parsed.saved;
    total = λ n. s.total (r.1 + n);
    parses = λ from.
        ap (parse none junk) (append_assoc seen (c ∷ []) from)
        ∙ s.parses (c ∷ from)
        ∙ ap (λ m. m >>= counted_by s.total)
            (parse-append req junk junk (c ∷ []) from s.saved
              ∙ ap (λ m. m >>= then_parse junk from) e)
        ∙ >>=_assoc (parse (some r.0) junk from) (λ q. done (q.0, r.1 + q.1)) (counted_by s.total);
  }

  -- what make_request does behind a byte
  abbrev branch :
      List SockRecv → HttpMessage × ℕ → Bool → Outcome (Option HttpMessage × List SockRecv)
  branch evs r headed = elim headed [
    | true ↦ done (some r.0, evs)
    | false ↦ make_request junk evs (some r.0)
  ]

  abbrev go_on : List SockRecv → HttpMessage × ℕ → Outcome (Option HttpMessage × List SockRecv)
  go_on evs r = branch evs r (is_headed (message_state (some r.0)))

  after_byte :
      (c : ℕ) (evs : List SockRecv) (seen : Bytes) (req : Option HttpMessage)
      (o : Outcome (HttpMessage × ℕ))
      → Stands junk all seen (byte c ∷ evs) req
      → ((r : HttpMessage × ℕ)
          → Stands junk all (seen ++ (c ∷ [])) evs (some r.0)
          → Explained junk all (make_request junk evs (some r.0)))
      → parse req junk (c ∷ []) ≡ o
      → Explained junk all (o >>= go_on evs)
  after_byte c evs seen req (done r) s ih e =
      elim (Bool-cases (is_headed (message_state (some r.0)))) [
        | inl h ↦ subst (Explained junk all) (sym (ap (branch evs r) h)) (
          seen ++ (c ∷ []),
          one_more seen c evs s.reads,
          (s.total r.1, parses_one seen c evs req s (done r) e, h),
        )
        | inr h ↦
            subst (Explained junk all) (sym (ap (branch evs r) h))
              (ih r (one_more-Stands seen c evs req r s e h))
      ]
  after_byte c evs seen req fault s ih e =
      (seen ++ (c ∷ []), evs, one_more seen c evs s.reads, parses_one seen c evs req s fault e)
  after_byte c evs seen req diverges s ih e =
      absurd (subst (Holds (Parsed (c ∷ []))) e (parse-Parsed req junk (c ∷ []) s.saved))

  make_request-from :
      (evs : List SockRecv) (seen : Bytes) (req : Option HttpMessage)
      → Stands junk all seen evs req
      → Explained junk all (make_request junk evs req)
  unfolding make_request
  make_request-from [] seen req s = (seen, s.msg, s.reads ∙ append-nil (received seen), s.unheaded)
  make_request-from (closed ∷ evs) seen req s = (seen, s.msg, inl s.reads, s.unheaded)
  make_request-from (error ∷ evs) seen req s = (seen, s.msg, inr s.reads, s.unheaded)
  make_request-from (byte c ∷ evs) seen req s =
      after_byte c evs seen req (parse req junk (c ∷ [])) s
        (λ r s'. make_request-from evs (seen ++ (c ∷ [])) (some r.0) s') refl

plus_zero : (m : Outcome (HttpMessage × ℕ)) → m ≡ m >>= counted_by (λ n. n)
plus_zero (done r) = refl
plus_zero fault = refl
plus_zero diverges = refl

-- Reading a request byte by byte, whatever comes over the connection, is parsing what has come:
-- make_request returns a message exactly as one call of the parser gives it for the bytes received,
-- with complete headers; it returns none where the connection ends before the headers of what has
-- been received are complete; it waits where all events are bytes and the headers are not complete;
-- and its behaviour is undefined only where the parser's is for the bytes received.
pub make_request-Explained :
    (junk : HttpParserState) (evs : List SockRecv) → Explained junk evs (make_request junk evs none)
unfolding parse resume fresh loop message_state is_headed
make_request-Explained junk evs = make_request-from junk evs evs [] none (record {
  reads = refl;
  msg = _;
  unheaded = (0, refl, refl);
  saved = tt;
  total = λ n. n;
  parses = λ from. plus_zero (parse none junk from);
})
