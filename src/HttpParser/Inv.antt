-- ===== src/HttpParser/Inv.antt =====
-- The invariant of the parser's state between two bytes of the input.
use libsimple.Base.{
  ℕ, ◌≤◌, ◌<◌, ◌≡◌, refl, false, none, [], ◌∷◌, ◌++◌, Bytes, length, length-append, arith, ◌⊎◌,
}
use libsimple.Base.Int.{pos, is_positive}
use libsimple.HttpMessage.{
  HttpParserState, http_unknown, http_startline, http_headers, http_body, http_complete, http_cr,
  http_crlf, http_lsw, ParserData, HttpMessage, create,
}
use libsimple.HttpMessage.Encode.{IsSized}
use libsimple.HttpMessage.Headers.{IsCounted}
use libsimple.HttpParser.{Session, append, getmsglen, fresh}

-- The states to which a line goes back after CR or a folding.
abbrev pub IsLineState : HttpParserState → Type 0
IsLineState http_startline = Unit
IsLineState http_headers = Unit
IsLineState _ = ⊥

-- There is a body to come, and it is not complete.
pub record IsAwaiting (msg : HttpMessage) : Type 0 where
  pub total : ℕ
  pub announced : getmsglen msg ≡ pos total
  pub missing : msg.bodylen < total

-- The body is as long as announced, or there is none and no positive length is announced.
abbrev pub IsWhole : HttpMessage → Type 0
IsWhole msg =
    (getmsglen msg ≡ pos msg.bodylen) ⊎ ((msg.bodylen ≡ 0) × (is_positive (getmsglen msg) ≡ false))

-- The line ends with `end`.
abbrev pub EndsWith : Bytes → Bytes → Type 0
EndsWith end line = (start : Bytes) × (line ≡ start ++ end)

abbrev pub StateInv : HttpParserState → Session → Type 0
StateInv http_unknown s = ⊥
StateInv http_startline s = s.msg.bodylen ≡ 0
StateInv http_headers s = s.msg.bodylen ≡ 0
StateInv http_body s = IsAwaiting s.msg
StateInv http_complete s = IsWhole s.msg
StateInv http_cr s =
    (s.msg.bodylen ≡ 0) × IsLineState s.pd.last_state × EndsWith (b'\r' ∷ []) s.pd.linedata
StateInv http_crlf s =
    (s.msg.bodylen ≡ 0) × IsLineState s.pd.last_state × EndsWith (b'\r' ∷ b'\n' ∷ []) s.pd.linedata
StateInv http_lsw s = (s.msg.bodylen ≡ 0) × IsLineState s.pd.last_state

-- The line fits its block, the lengths of the message are right, and the state fits the rest.
pub record Inv (s : Session) : Type 0 where
  pub fits : length s.pd.linedata ≤ s.pd.line_bufsize
  pub sized : IsSized s.msg
  pub counted : IsCounted s.msg
  pub detached : s.msg.pri_data ≡ none
  pub by_state : StateInv s.pd.state s

-- `_append` keeps the line inside its block.
pub append-fits :
    (c : ℕ) (pd : ParserData)
    → length pd.linedata ≤ pd.line_bufsize
    → length (append c pd).linedata ≤ (append c pd).line_bufsize
unfolding append
append-fits c pd h = ground (arith, length-append pd.linedata (c ∷ []))

pub fresh-Inv : (junk : HttpParserState) → Inv (fresh junk)
unfolding fresh create
fresh-Inv junk = record {
  fits = omega arith;
  sized = refl;
  counted = refl;
  detached = refl;
  by_state = refl;
}

pub IsLineState-StateInv :
    (st : HttpParserState) (s : Session) → IsLineState st → s.msg.bodylen ≡ 0 → StateInv st s
IsLineState-StateInv http_startline s l z = z
IsLineState-StateInv http_headers s l z = z
IsLineState-StateInv http_unknown s l z = absurd l
IsLineState-StateInv http_body s l z = absurd l
IsLineState-StateInv http_complete s l z = absurd l
IsLineState-StateInv http_cr s l z = absurd l
IsLineState-StateInv http_crlf s l z = absurd l
IsLineState-StateInv http_lsw s l z = absurd l

-- One more byte in the line, and a new state.
pub appended-Inv :
    (st last : HttpParserState) (s : Session) (c : ℕ)
    → Inv s
    → (let s' = record s { pd = record (append c s.pd) { state = st; last_state = last } } in
        StateInv st s' → Inv s')
appended-Inv st last s c v h = record {
  fits = append-fits c s.pd v.fits;
  sized = v.sized;
  counted = v.counted;
  detached = v.detached;
  by_state = h;
}
