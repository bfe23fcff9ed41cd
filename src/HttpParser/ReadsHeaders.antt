-- ===== src/HttpParser/ReadsHeaders.antt =====
-- The header lines of a message, as `httpc_Message_encode` writes them.
use libsimple.Base.{
  ℕ, ◌≡◌, ◌≢◌, refl, ap, sym, ◌∙◌, subst, false, List, [], ◌∷◌, ◌++◌, append-nil, append_assoc,
  Bytes, arith, if◌then◌else◌,
}
use libsimple.Clib.Text.{Lacks, append-Lacks}
use libsimple.HttpMessage.{HttpMessage, HttpHeader, crlf, http_headers, set_value, encode_headers}
use libsimple.HttpParser.{
  Session, isspace, is_startline, finish_line, parse_start_line, parse_header_line,
}
use libsimple.HttpParser.Line.{StartsSolid, IsPrintable, parse_header_line-encode_headers}
use libsimple.HttpParser.Reads.{Goes, Goes-append, Goes-nil, InLine, AfterCrlf, Ready}
use libsimple.HttpParser.ReadsLine.{line_whole, Ready-byte}
use libsimple.Outcome.{done}

-- Headers that can be written: printable ones, with no CR inside.
pub record IsWritable (h : HttpHeader) : Type 0 where
  pub printable : IsPrintable h
  pub key_line : Lacks b'\r' h.key
  pub value_line : Lacks b'\r' h.value

abbrev pub AllWritable : List HttpHeader → Type 0
AllWritable [] = Unit
AllWritable (h ∷ hs) = IsWritable h × AllWritable hs

-- a header line without its end
abbrev line_of : HttpHeader → Bytes
line_of h = h.key ++ (b':' ∷ b' ' ∷ h.value)

encode_headers-line_of :
    (h : HttpHeader) (hs : List HttpHeader)
    → encode_headers (h ∷ hs) ≡ (line_of h ++ crlf) ++ encode_headers hs
unfolding encode_headers
encode_headers-line_of h hs =
    let rest = encode_headers hs in
    sym (
      append_assoc (line_of h) crlf rest
      ∙ append_assoc h.key (b':' ∷ b' ' ∷ h.value) (crlf ++ rest))

-- Behind a header line.
header-Ready :
    (h : HttpHeader) (msg : HttpMessage) (s : Session)
    → IsPrintable h
    → AfterCrlf http_headers ((line_of h ++ (b'\r' ∷ [])) ++ (b'\n' ∷ [])) msg s
    → Ready (set_value msg h.key h.value) s
unfolding finish_line
header-Ready h msg s p v =
    let line : s.pd.linedata ≡ encode_headers (h ∷ []) =
      v.line_is
      ∙ append_assoc (line_of h) (b'\r' ∷ []) (b'\n' ∷ [])
      ∙ unfold encode_headers in
        (sym (encode_headers-line_of h [] ∙ append-nil (line_of h ++ crlf))) in
    record {
      state_is = v.state_is;
      finished = record s { msg = set_value s.msg h.key h.value };
      finishes =
          ap (λ st. if is_startline st then done (parse_start_line s) else parse_header_line s)
            v.last_is
          ∙ parse_header_line-encode_headers s h p line;
      msg_is = ap (λ m. set_value m h.key h.value) v.msg_is;
    }

solid_cr : (c : ℕ) → isspace c ≡ false → c ≢ b'\r'
solid_cr c e = ground arith

-- One header line, from its first byte.
header_line :
    (h : HttpHeader) (key : Bytes) (msg : HttpMessage) (s : Session)
    → IsWritable h
    → h.key ≡ key
    → Ready msg s
    → Goes s (line_of h ++ crlf) (Ready (set_value msg h.key h.value))
header_line h [] msg s w e v = absurd (subst StartsSolid e w.printable.key_start)
header_line h (c ∷ k) msg s w e v =
    let solid : isspace c ≡ false = subst StartsSolid e w.printable.key_start in
    let rest = k ++ (b':' ∷ b' ' ∷ h.value) in
    let whole : c ∷ rest ≡ line_of h = ap (◌++ (b':' ∷ b' ' ∷ h.value)) (sym e) in
    let key_line : Lacks b'\r' (c ∷ k) = subst (Lacks b'\r') e w.key_line in
    let clean : Lacks b'\r' rest =
      append-Lacks b'\r' k (b':' ∷ b' ' ∷ h.value) key_line.1
        (ground arith, (ground arith, w.value_line)) in
    subst (λ l. Goes s (l ++ crlf) (Ready (set_value msg h.key h.value))) whole
      (Goes-append s (c ∷ []) (rest ++ crlf) (InLine http_headers (c ∷ []) msg)
        (Ready (set_value msg h.key h.value)) (Ready-byte msg s c solid v)
        (λ t x.
          let g : Goes t (rest ++ crlf)
              (AfterCrlf http_headers (((c ∷ rest) ++ (b'\r' ∷ [])) ++ (b'\n' ∷ [])) msg) =
            line_whole http_headers tt c [] rest msg t (solid_cr c solid) clean x in
          record {
            to = g.to;
            reaches = g.reaches;
            holds = header-Ready h msg g.to w.printable (
                subst (λ l. AfterCrlf http_headers ((l ++ (b'\r' ∷ [])) ++ (b'\n' ∷ [])) msg g.to)
                  whole g.holds);
          }))

-- The message with the headers, each one put in front of those before it.
abbrev pub push_all : HttpMessage → List HttpHeader → HttpMessage
push_all msg [] = msg
push_all msg (h ∷ hs) = push_all (set_value msg h.key h.value) hs

pub header_lines :
    (hs : List HttpHeader) (msg : HttpMessage) (s : Session)
    → AllWritable hs
    → Ready msg s
    → Goes s (encode_headers hs) (Ready (push_all msg hs))
header_lines [] msg s w v = unfold encode_headers in (Goes-nil s (Ready msg) v)
header_lines (h ∷ hs) msg s w v =
    subst (λ l. Goes s l (Ready (push_all msg (h ∷ hs)))) (sym (encode_headers-line_of h hs))
      (Goes-append s (line_of h ++ crlf) (encode_headers hs) (Ready (set_value msg h.key h.value))
        (Ready (push_all msg (h ∷ hs))) (header_line h h.key msg s w.0 refl v)
        (λ t x. header_lines hs (set_value msg h.key h.value) t w.1 x))
