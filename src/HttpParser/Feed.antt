-- ===== src/HttpParser/Feed.antt =====
-- The input of `httpc_parser_parse` one byte at a time.
use libsimple.Base.{
  ℕ, ◌+◌, ◌≡◌, refl, ap, sym, ◌∙◌, fun_ext, Bool, true, false, [], ◌∷◌, ◌++◌, Bytes, arith,
}
use libsimple.HttpMessage.{HttpParserState}
use libsimple.HttpParser.{Session, byte_in, is_complete}
use libsimple.HttpParser.Inv.{Inv}
use libsimple.HttpParser.Steps.{byte_in-Inv}
use libsimple.Outcome.{Outcome, done, ◌>>=◌, Holds, Holds-bind, >>=_assoc}

pub feed_when : Bool → Session → ℕ → Outcome (Session × ℕ)
feed_when true s c = done (s, 0)
feed_when false s c = byte_in s.pd.state s c >>= λ s'. done (s', 1)

-- One byte, and how many were used: none once the message is complete.
unfoldable pub feed_byte : Session → ℕ → Outcome (Session × ℕ)
unfolding feed_when
feed_byte s c = feed_when (is_complete s.pd.state) s c

unfoldable pub feed : Session → Bytes → ℕ → Outcome (Session × ℕ)
feed s [] used = done (s, used)
feed s (c ∷ from) used = feed_byte s c >>= λ r. feed r.0 from (used + r.1)

pub feed-append :
    (xs : Bytes) (s : Session) (ys : Bytes) (used : ℕ)
    → feed s (xs ++ ys) used ≡ (feed s xs used >>= λ r. feed r.0 ys r.1)
unfolding feed
feed-append [] s ys used = refl
feed-append (c ∷ xs) s ys used =
    ap (◌>>=◌ (feed_byte s c)) (fun_ext λ r. feed-append xs r.0 ys (used + r.1))
    ∙ sym (>>=_assoc (feed_byte s c) (λ r. feed r.0 xs (used + r.1)) (λ r. feed r.0 ys r.1))

-- The count is only added to.
abbrev pub Shifts : Bytes → Type 0
Shifts from =
    (s : Session) (used : ℕ) → feed s from used ≡ (feed s from 0 >>= λ r. done (r.0, used + r.1))

shift_again :
    (from : Bytes)
    → Shifts from
    → (s : Session) (used n : ℕ)
    → feed s from (used + n) ≡ (feed s from (0 + n) >>= λ r. done (r.0, used + r.1))
shift_again from ih s used n =
    ih s (used + n)
    ∙ ap (◌>>=◌ (feed s from 0)) (fun_ext λ r. ap (λ k. done (r.0, k)) (regroup r.1))
    ∙ sym (>>=_assoc (feed s from 0) (λ r. done (r.0, 0 + n + r.1)) (λ r. done (r.0, used + r.1)))
    ∙ ap (λ m. m >>= λ r. done (r.0, used + r.1)) (sym (ih s (0 + n)))
  where
    regroup : (k : ℕ) → used + n + k ≡ used + (0 + n + k)
    regroup k = omega arith

pub feed_from : (from : Bytes) → Shifts from
unfolding feed
feed_from [] s used = ap (λ n. done (s, n)) (omega arith)
feed_from (c ∷ from) s used =
    ap (◌>>=◌ (feed_byte s c)) (fun_ext λ r. shift_again from (feed_from from) r.0 used r.1)
    ∙ sym (>>=_assoc (feed_byte s c) (λ r. feed r.0 from (0 + r.1)) (λ r. done (r.0, used + r.1)))

pub feed_byte-Inv : (s : Session) (c : ℕ) → Inv s → Holds (λ r. Inv r.0) (feed_byte s c)
unfolding feed_byte
feed_byte-Inv s c v = by_test (is_complete s.pd.state)
  where
    by_test : (b : Bool) → Holds (λ r. Inv r.0) (feed_when b s c)
    by_test true = v
    by_test false =
        Holds-bind Inv (λ r. Inv r.0) (byte_in s.pd.state s c) (λ s'. done (s', 1))
          (byte_in-Inv s.pd.state s c refl v) (λ s' v'. v')

pub feed-Inv :
    (from : Bytes) (s : Session) (used : ℕ) → Inv s → Holds (λ r. Inv r.0) (feed s from used)
unfolding feed
feed-Inv [] s used v = v
feed-Inv (c ∷ from) s used v =
    Holds-bind (λ r. Inv r.0) (λ r. Inv r.0) (feed_byte s c) (λ r. feed r.0 from (used + r.1))
      (feed_byte-Inv s c v) (λ r v'. feed-Inv from r.0 (used + r.1) v')

-- One byte by the state that the session is in.
pub feed_byte-byte_in :
    (st : HttpParserState) (s : Session) (c : ℕ)
    → s.pd.state ≡ st
    → is_complete st ≡ false
    → feed_byte s c ≡ (byte_in st s c >>= λ s'. done (s', 1))
unfolding feed_byte
feed_byte-byte_in st s c e h =
    ap (λ st'. feed_when (is_complete st') s c) e
    ∙ ap (λ b. feed_when b s c) h
    ∙ ap (λ st'. byte_in st' s c >>= λ s'. done (s', 1)) e

pub feed_complete :
    (from : Bytes) (s : Session) (used : ℕ)
    → is_complete s.pd.state ≡ true
    → feed s from used ≡ done (s, used)
unfolding feed feed_byte
feed_complete [] s used e = refl
feed_complete (c ∷ from) s used e =
    ap (λ b. feed_when b s c >>= λ r. feed r.0 from (used + r.1)) e
    ∙ feed_complete from s (used + 0) e
    ∙ ap (λ n. done (s, n)) (omega arith)
