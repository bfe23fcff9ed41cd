-- ===== src/HttpParser/Keeps.antt =====
-- What of a message `parseStartLine` and `parseHeaderLine` touch.
use libsimple.Base.{
  ◌≡◌, refl, subst, sym, Option, none, some, [], ◌∷◌, Bytes, arith, Bool-cases, inl, inr, take,
}
use libsimple.Base.Int.{ℤ, pos, negsuc}
use libsimple.Clib.Text.{c_string}
use libsimple.HttpMessage.{HttpMessage, set_value}
use libsimple.HttpMessage.Encode.{IsSized}
use libsimple.HttpMessage.Headers.{IsCounted}
use libsimple.HttpParser.{
  Session, parse_start_line, parse_header_line, finish_line, is_startline, header_parts, header_key,
  header_value, value_length, copy_value, split_colon, skip_space, trim_end,
}
use libsimple.Outcome.{done, Holds, Holds-bind}
use libsimple.HttpParser.Inv.{Inv}

-- What the two line parsers leave alone.
pub record KeepsLine (s s' : Session) : Type 0 where
  pub same_pd : s'.pd ≡ s.pd
  pub same_bodylen : s'.msg.bodylen ≡ s.msg.bodylen
  pub sized : IsSized s'.msg
  pub counted : IsCounted s'.msg
  pub detached : s'.msg.pri_data ≡ none

-- `parseHeaderLine` does nothing but one `httpc_Message_setValue`.
abbrev Sets : HttpMessage → HttpMessage → Type 0
Sets msg msg' = (key value : Bytes) × (msg' ≡ set_value msg key value)

header_value-Sets : (msg : HttpMessage) (k v : Bytes) → Holds (Sets msg) (header_value msg k v)
unfolding header_value
header_value-Sets msg k v = copies (value_length v)
  where
    copies : (n : ℤ) → Holds (Sets msg) (copy_value msg k (skip_space v) n)
    copies (pos n) = unfold copy_value in (c_string k, c_string (take n (skip_space v)), refl)
    copies (negsuc n) = unfold copy_value in tt

header_parts-Sets :
    (msg : HttpMessage) (o : Option (Bytes × Bytes)) → Holds (Sets msg) (header_parts msg o)
unfolding header_parts
header_parts-Sets msg none = tt
header_parts-Sets msg (some (k, v)) = by_key (trim_end k) v
  where
    by_key : (k v : Bytes) → Holds (Sets msg) (header_key msg k v)
    by_key [] v = unfold header_key in header_value-Sets msg [] v
    by_key (c ∷ []) v = unfold header_key in tt
    by_key (c ∷ d ∷ k) v = unfold header_key in header_value-Sets msg (c ∷ d ∷ k) v

parse_header_line-KeepsLine : (s : Session) → Inv s → Holds (KeepsLine s) (parse_header_line s)
unfolding parse_header_line set_value
parse_header_line-KeepsLine s v =
    Holds-bind (Sets s.msg) (KeepsLine s)
      (header_parts s.msg (split_colon (skip_space s.pd.linedata)))
      (λ msg. done (record s { msg = msg }))
      (header_parts-Sets s.msg (split_colon (skip_space s.pd.linedata))) keeps
  where
    keeps : (msg : HttpMessage) → Sets s.msg msg → KeepsLine s (record s { msg = msg })
    keeps msg (key, value, e) =
        subst (λ m. KeepsLine s (record s { msg = m })) (sym e)
          (record {
            same_pd = refl;
            same_bodylen = refl;
            sized = v.sized;
            counted = omega arith;
            detached = v.detached;
          })

pub finish_line-KeepsLine : (s : Session) → Inv s → Holds (KeepsLine s) (finish_line s)
unfolding finish_line parse_start_line
finish_line-KeepsLine s v = elim (Bool-cases (is_startline s.pd.last_state)) [
  | inl start ↦ rw start (record {
    same_pd = refl;
    same_bodylen = refl;
    sized = v.sized;
    counted = v.counted;
    detached = v.detached;
  })
  | inr header ↦ rw header (parse_header_line-KeepsLine s v)
]
