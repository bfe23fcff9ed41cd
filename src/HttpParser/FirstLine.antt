-- ===== src/HttpParser/FirstLine.antt =====
-- parseStartLine and the start lines that `httpc_Message_encode` writes.
use libsimple.Base.{ℕ, ◌≡◌, refl, ap, ap₂, ◌∙◌, Bool, true, false, some, [], ◌∷◌, ◌++◌, Bytes}
use libsimple.Clib.Text.{c_string, HasNoNul, c_string-HasNoNul}
use libsimple.HttpMessage.{crlf, encode_start}
use libsimple.HttpParser.{
  Session, isspace, iseol, take_until, drop_until, skip_space, parse_start_line,
}
use libsimple.HttpParser.Line.{StartsSolid}

-- No byte stops a scan.
abbrev pub Passes : (ℕ → Bool) → Bytes → Type 0
Passes stop [] = Unit
Passes stop (c ∷ s) = (stop c ≡ false) × Passes stop s

-- A start line that can be written: two words without white space, neither of them empty, and a rest
-- that has no line end and does not start with white space; all without NULs.
pub record IsStart (p1 p2 p3 : Bytes) : Type 0 where
  pub word1 : Passes isspace p1
  pub word2 : Passes isspace p2
  pub solid1 : StartsSolid p1
  pub solid2 : StartsSolid p2
  pub solid3 : StartsSolid p3
  pub rest : Passes iseol p3
  pub text1 : HasNoNul p1
  pub text2 : HasNoNul p2
  pub text3 : HasNoNul p3

take_until-append :
    (stop : ℕ → Bool) (xs : Bytes) (c : ℕ) (ys : Bytes)
    → Passes stop xs
    → stop c ≡ true
    → (take_until stop (xs ++ (c ∷ ys)) ≡ xs) × (drop_until stop (xs ++ (c ∷ ys)) ≡ c ∷ ys)
unfolding take_until drop_until
take_until-append stop [] c ys p h = (rw h, rw h)
take_until-append stop (x ∷ xs) c ys p h =
    let (t, d) = take_until-append stop xs c ys p.1 h in (rw p.0 (ap (x ∷◌) t), rw p.0 d)

skip_solid : (s t : Bytes) → StartsSolid s → skip_space (b' ' ∷ (s ++ t)) ≡ s ++ t
unfolding skip_space
skip_solid [] t h = absurd h
skip_solid (c ∷ s) t h = rw h

-- parseStartLine finds the three parts of a start line as it is written.
pub parse_start_line-encode_start :
    (s : Session) (p1 p2 p3 : Bytes)
    → IsStart p1 p2 p3
    → s.pd.linedata ≡ encode_start p1 p2 p3
    → parse_start_line s ≡ record s {
      msg = record s.msg { start_line = record { p1 = some p1; p2 = some p2; p3 = some p3 } };
    }
unfolding parse_start_line
parse_start_line-encode_start s p1 p2 p3 v e =
    let l3 = p3 ++ crlf in
    let l2 = p2 ++ (b' ' ∷ l3) in
    let line = p1 ++ (b' ' ∷ l2) in
    let behind = λ (l : Bytes). skip_space (drop_until isspace l) in
    let (t1, d1) = take_until-append isspace p1 b' ' l2 v.word1 refl in
    let (t2, d2) = take_until-append isspace p2 b' ' l3 v.word2 refl in
    let (t3, d3) = take_until-append iseol p3 b'\r' (b'\n' ∷ []) v.rest refl in
    let at2 : behind line ≡ l2 = ap skip_space d1 ∙ skip_solid p2 (b' ' ∷ l3) v.solid2 in
    let at3 : behind (behind line) ≡ l3 =
      ap behind at2 ∙ ap skip_space d2 ∙ skip_solid p3 crlf v.solid3 in
    let build = λ (x y z : Bytes). record s {
      msg = record s.msg { start_line = record { p1 = some x; p2 = some y; p3 = some z } };
    } in
    ap
      (λ l.
        build (c_string (take_until isspace l)) (c_string (take_until isspace (behind l)))
          (c_string (take_until iseol (behind (behind l)))))
      e
    ∙ ap
        (λ x.
          build x (c_string (take_until isspace (behind line)))
            (c_string (take_until iseol (behind (behind line)))))
        (ap c_string t1 ∙ c_string-HasNoNul p1 v.text1)
    ∙ ap₂ (build p1)
        (ap (λ l. c_string (take_until isspace l)) at2
          ∙ ap c_string t2
          ∙ c_string-HasNoNul p2 v.text2)
        (ap (λ l. c_string (take_until iseol l)) at3
          ∙ ap c_string t3
          ∙ c_string-HasNoNul p3 v.text3)
