-- ===== src/HttpParser/Line.antt =====
-- One header line: `parseHeaderLine`, and the lines of `httpc_Message_encode`.
use libsimple.Base.{
  ℕ, suc, ◌≡◌, ◌≢◌, inl, inr, refl, ap, sym, ◌∙◌, true, false, some, [], ◌∷◌, ◌++◌, append-nil,
  Bytes, ◌≤◌, ◌-◌, min, length, length-append, take-append, arith, Bool-cases,
}
use libsimple.Base.Int.{pos, negsuc, sub_ℕ, sub_ℕ_cong, sub_ℕ-pos_part}
use libsimple.Clib.Text.{c_string, Lacks, HasNoNul, c_string-HasNoNul}
use libsimple.HttpMessage.{HttpMessage, HttpHeader, crlf, encode_headers, set_value}
use libsimple.HttpParser.{
  Session, isspace, skip_space, value_end, value_end_of, value_length, copy_value, split_colon,
  trim_end, cons_trimmed, header_value, header_key, header_parts, parse_header_line,
}
use libsimple.Outcome.{done, fault, ◌>>=◌}

-- The first, the last, or every byte is white space or is not.
abbrev pub StartsSolid : Bytes → Type 0
StartsSolid [] = ⊥
StartsSolid (c ∷ s) = isspace c ≡ false

abbrev pub EndsSolid : Bytes → Type 0
EndsSolid [] = ⊥
EndsSolid (c ∷ []) = isspace c ≡ false
EndsSolid (c ∷ d ∷ s) = EndsSolid (d ∷ s)

abbrev pub IsBlank : Bytes → Type 0
IsBlank [] = Unit
IsBlank (c ∷ s) = (isspace c ≡ true) × IsBlank s

-- A header that can be written in a line: a key of two bytes or more, with no ':', and a value, both
-- without NULs and without white space at their ends.
pub record IsPrintable (h : HttpHeader) : Type 0 where
  pub no_colon : Lacks b':' h.key
  pub key_start : StartsSolid h.key
  pub key_end : EndsSolid h.key
  pub two : (c : ℕ) → h.key ≢ c ∷ []
  pub value_start : StartsSolid h.value
  pub value_end : EndsSolid h.value
  pub key_text : HasNoNul h.key
  pub value_text : HasNoNul h.value

skip_space-solid : (s t : Bytes) → StartsSolid s → skip_space (s ++ t) ≡ s ++ t
unfolding skip_space
skip_space-solid [] t h = absurd h
skip_space-solid (c ∷ s) t h = rw h

split_colon-append :
    (key rest : Bytes) → Lacks b':' key → split_colon (key ++ (b':' ∷ rest)) ≡ some (key, rest)
unfolding split_colon
split_colon-append [] rest h = refl
split_colon-append (c ∷ key) rest h = ground (arith, split_colon-append key rest h.1)

trim_end-blank : (s : Bytes) → IsBlank s → trim_end s ≡ []
unfolding trim_end
trim_end-blank [] h = refl
trim_end-blank (c ∷ s) h =
    ap (cons_trimmed c) (trim_end-blank s h.1) ∙ unfold cons_trimmed in (rw h.0)

trim_end-append : (s t : Bytes) → EndsSolid s → IsBlank t → trim_end (s ++ t) ≡ s
unfolding trim_end
trim_end-append [] t h b = absurd h
trim_end-append (c ∷ []) t h b =
    ap (cons_trimmed c) (trim_end-blank t b) ∙ unfold cons_trimmed in (rw h)
trim_end-append (c ∷ d ∷ s) t h b =
    ap (cons_trimmed c) (trim_end-append (d ∷ s) t h b) ∙ unfold cons_trimmed in refl

header_key-two :
    (msg : HttpMessage) (key value : Bytes)
    → ((c : ℕ) → key ≢ c ∷ [])
    → header_key msg key value ≡ header_value msg key value
unfolding header_key
header_key-two msg [] value h = refl
header_key-two msg (c ∷ []) value h = absurd (h c refl)
header_key-two msg (c ∷ d ∷ key) value h = refl

trim_end-key : (key : Bytes) → EndsSolid key → trim_end key ≡ key
trim_end-key key h = ap trim_end (sym (append-nil key)) ∙ trim_end-append key [] h tt

-- the text behind the ':' of a header that has been written
abbrev written_value : Bytes → Bytes
written_value value = b' ' ∷ (value ++ crlf)

space_before : (value : Bytes) → StartsSolid value → EndsSolid value → EndsSolid (b' ' ∷ value)
space_before [] start end = absurd start
space_before (c ∷ value) start end = end

written_value-skip :
    (value : Bytes) → StartsSolid value → skip_space (written_value value) ≡ value ++ crlf
unfolding skip_space
written_value-skip value start = skip_space-solid value crlf start

value_length-written_value :
    (value : Bytes)
    → StartsSolid value
    → EndsSolid value
    → value_length (written_value value) ≡ pos (length value)
unfolding value_length value_end value_end_of
value_length-written_value value start end =
    let ends : trim_end (written_value value) ≡ b' ' ∷ value =
      trim_end-append (b' ' ∷ value) crlf (space_before value start end) (refl, (refl, tt)) in
    rw (ends, written_value-skip value start)
      (sub_ℕ_cong (suc (length value)) (length (written_value value) - length (value ++ crlf))
          (length value) 0 (omega (arith, length-append value crlf))
        ∙ sub_ℕ-pos_part (pos (length value)))

header_value-written_value :
    (msg : HttpMessage) (key value : Bytes)
    → StartsSolid value
    → EndsSolid value
    → header_value msg key (written_value value)
      ≡ done (set_value msg (c_string key) (c_string value))
unfolding header_value
header_value-written_value msg key value start end =
    ap (copy_value msg key (skip_space (written_value value)))
      (value_length-written_value value start end)
    ∙ ap (λ from. copy_value msg key from (pos (length value))) (written_value-skip value start)
    ∙ unfold copy_value in
      ap (λ v. done (set_value msg (c_string key) (c_string v))) (take-append value crlf)

header_parts-printed :
    (msg : HttpMessage) (h : HttpHeader)
    → IsPrintable h
    → header_parts msg (some (h.key, written_value h.value)) ≡ done (set_value msg h.key h.value)
unfolding header_parts
header_parts-printed msg h p =
    ap (λ k. header_key msg k (written_value h.value)) (trim_end-key h.key p.key_end)
    ∙ header_key-two msg h.key (written_value h.value) p.two
    ∙ header_value-written_value msg h.key h.value p.value_start p.value_end
    ∙ ap (λ k. done (set_value msg k (c_string h.value))) (c_string-HasNoNul h.key p.key_text)
    ∙ ap (λ v. done (set_value msg h.key v)) (c_string-HasNoNul h.value p.value_text)

-- A header line as `httpc_Message_encode` writes it, for a key of two bytes or more without a ':' and
-- a value, both without NULs and without white space at their ends, is read back by parseHeaderLine:
-- it puts exactly that key and that value into the message.
pub parse_header_line-encode_headers :
    (s : Session) (h : HttpHeader)
    → IsPrintable h
    → s.pd.linedata ≡ encode_headers (h ∷ [])
    → parse_header_line s ≡ done (record s { msg = set_value s.msg h.key h.value })
unfolding parse_header_line encode_headers
parse_header_line-encode_headers s h p e =
    ap
      (λ line.
        header_parts s.msg (split_colon (skip_space line)) >>= λ msg. done (record s { msg = msg }))
      e
    ∙ ap (λ line. header_parts s.msg (split_colon line) >>= λ msg. done (record s { msg = msg }))
        (skip_space-solid h.key (b':' ∷ written_value h.value) p.key_start)
    ∙ ap (λ parts. header_parts s.msg parts >>= λ msg. done (record s { msg = msg }))
        (split_colon-append h.key (written_value h.value) p.no_colon)
    ∙ ap (λ m. m >>= λ msg. done (record s { msg = msg })) (header_parts-printed s.msg h p)

skip_space-Lacks : (c : ℕ) (s : Bytes) → Lacks c s → Lacks c (skip_space s)
unfolding skip_space
skip_space-Lacks c [] h = tt
skip_space-Lacks c (x ∷ s) h = elim (Bool-cases (isspace x)) [
  | inl space ↦ rw space (skip_space-Lacks c s h.1)
  | inr solid ↦ rw solid h
]

skip_space-blank : (s : Bytes) → IsBlank s → skip_space s ≡ []
unfolding skip_space
skip_space-blank [] h = refl
skip_space-blank (c ∷ s) h = rw h.0 (skip_space-blank s h.1)

skip_space-append :
    (key rest : Bytes) → skip_space (key ++ (b':' ∷ rest)) ≡ skip_space key ++ (b':' ∷ rest)
unfolding skip_space
skip_space-append [] rest = refl
skip_space-append (c ∷ key) rest = elim (Bool-cases (isspace c)) [
  | inl space ↦ rw space (skip_space-append key rest)
  | inr solid ↦ rw solid
]

-- `p` stops at the first byte of white space, and `q` behind the last one.
header_value-blank :
    (msg : HttpMessage) (key rest : Bytes)
    → IsBlank rest
    → 2 ≤ length rest
    → header_value msg key rest ≡ fault
unfolding header_value value_length value_end value_end_of
header_value-blank msg key rest h two =
    let negative : sub_ℕ (min 1 (length rest)) (length rest - 0) ≡ negsuc (length rest - 2) =
      sub_ℕ_cong (min 1 (length rest)) (length rest - 0) 0 (suc (length rest - 2)) (omega arith)
      ∙ sub_ℕ-pos_part (negsuc (length rest - 2)) in
    ap
      (λ t.
        copy_value msg key (skip_space rest)
          (sub_ℕ (value_end_of rest t) (length rest - length (skip_space rest))))
      (trim_end-blank rest h)
    ∙ ap
        (λ t.
          copy_value msg key (skip_space rest)
            (sub_ℕ (min 1 (length rest)) (length rest - length t)))
        (skip_space-blank rest h)
    ∙ ap (copy_value msg key (skip_space rest)) negative
    ∙ unfold copy_value in refl

header_key-blank :
    (msg : HttpMessage) (key rest : Bytes)
    → IsBlank rest
    → 2 ≤ length rest
    → header_key msg key rest ≡ fault
unfolding header_key
header_key-blank msg [] rest h two = header_value-blank msg [] rest h two
header_key-blank msg (c ∷ []) rest h two = refl
header_key-blank msg (c ∷ d ∷ key) rest h two = header_value-blank msg (c ∷ d ∷ key) rest h two

-- parseHeaderLine has undefined behaviour for every line with two bytes or more, and nothing but
-- white space, behind its first ':', as "Host:" and CR LF: the length that it gives to memcpy is
-- negative.
pub parse_header_line-fault :
    (s : Session) (key rest : Bytes)
    → s.pd.linedata ≡ key ++ (b':' ∷ rest)
    → Lacks b':' key
    → IsBlank rest
    → 2 ≤ length rest
    → parse_header_line s ≡ fault
unfolding parse_header_line header_parts
parse_header_line-fault s key rest e no_colon blank two =
    ap
      (λ line.
        header_parts s.msg (split_colon (skip_space line)) >>= λ msg. done (record s { msg = msg }))
      e
    ∙ ap (λ line. header_parts s.msg (split_colon line) >>= λ msg. done (record s { msg = msg }))
        (skip_space-append key rest)
    ∙ ap (λ parts. header_parts s.msg parts >>= λ msg. done (record s { msg = msg }))
        (split_colon-append (skip_space key) rest (skip_space-Lacks b':' key no_colon))
    ∙ ap (λ m. m >>= λ msg. done (record s { msg = msg }))
        (header_key-blank s.msg (trim_end (skip_space key)) rest blank two)
