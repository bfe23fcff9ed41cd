-- ===== src/Url/Parts.antt =====
-- The parts of a URL in `simple_url_parse`.
use libsimple.Base.{
  ℕ, zero, suc, ◌-◌, ◌≤◌, ◌≡◌, refl, ap, sym, ◌∙◌, Option, none, some, [], ◌∷◌, ◌++◌, Bytes, take,
  drop, length, arith, take-append-drop, length-drop, length-take,
}
use libsimple.Clib.Text.{c_string, codes, HasNoNul, c_string-HasNoNul}
use libsimple.Url.{
  Url, Match, my_strndup, part, port_part, with_authority, parse_url, parse_match, parse_query,
}

take-HasNoNul : (n : ℕ) (s : Bytes) → HasNoNul s → HasNoNul (take n s)
take-HasNoNul zero s h = tt
take-HasNoNul (suc n) [] h = tt
take-HasNoNul (suc n) (c ∷ s) h = (h.0, take-HasNoNul n s h.1)

drop-HasNoNul : (n : ℕ) (s : Bytes) → HasNoNul s → HasNoNul (drop n s)
drop-HasNoNul zero s h = h
drop-HasNoNul (suc n) [] h = tt
drop-HasNoNul (suc n) (c ∷ s) h = drop-HasNoNul n s h.1

-- A part that the matcher places inside a C string is copied whole: it is what stands between the
-- two places.
pub part-infix :
    (str : Bytes) (so eo : ℕ)
    → HasNoNul str
    → so ≤ eo
    → eo ≤ length str
    → (before after : Bytes) × (str ≡ before ++ (part str (some (so, eo)) ++ after))
      × (length before ≡ so)
      × (length (part str (some (so, eo))) ≡ eo - so)
unfolding my_strndup
part-infix str so eo h le inside =
    let rest = drop so str in
    let whole : c_string (take (eo - so) rest) ≡ take (eo - so) rest =
      c_string-HasNoNul (take (eo - so) rest)
        (take-HasNoNul (eo - so) rest (drop-HasNoNul so str h)) in
    (
      take so str,
      drop (eo - so) rest,
      rw whole
          (sym (ap (take so str ++◌) (take-append-drop (eo - so) rest) ∙ take-append-drop so str)),
      omega (arith, length-take so str),
      rw whole (omega (arith, length-take (eo - so) rest, length-drop so str)),
    )

-- The port that the second match gives.
abbrev pub authority_port : Bytes → Option Match → Bytes
authority_port authority none = codes "80"
authority_port authority (some subs) = port_part authority (subs 6)

with_authority-parts :
    (match_url match_auth : Bytes → Option Match) (authority : Bytes) (o : Option Match) (url : Url)
    → let url' = with_authority match_url match_auth authority o url in
      (url'.port ≡ authority_port authority o)
      × (url'.path ≡ url.path)
      × (url'.query ≡ url.query)
      × (url'.query_pairs ≡ url.query_pairs)
unfolding with_authority
with_authority-parts match_url match_auth authority none url = (refl, refl, refl, refl)
with_authority-parts match_url match_auth authority (some subs) url = (refl, refl, refl, refl)

-- Whatever the matchers answer: if the first one matches there is a URL, with part 5 as its path,
-- part 7 as its query and the pairs of part 7; its port is 80 if part 4 does not match as an
-- authority or has no port, and otherwise the text of part 6 of that match.
pub parse_url-parts :
    (match_url match_auth : Bytes → Option Match) (str : Bytes) (subs : Match)
    → match_url str ≡ some subs
    → (url : Url) × (parse_url match_url match_auth str ≡ some url)
      × (url.port ≡ authority_port (part str (subs 4)) (match_auth (part str (subs 4))))
      × (url.path ≡ part str (subs 5))
      × (url.query ≡ part str (subs 7))
      × (url.query_pairs ≡ parse_query (part str (subs 7)))
unfolding parse_url
parse_url-parts match_url match_auth str subs e =
    let authority = part str (subs 4) in
    let (port, path, query, pairs) =
      with_authority-parts match_url match_auth authority (match_auth authority) (record {
        schema = part str (subs 2);
        username = [];
        passwd = [];
        host = [];
        port = [];
        path = part str (subs 5);
        query = part str (subs 7);
        fragment = part str (subs 9);
        query_pairs = parse_query (part str (subs 7));
      }) in
    (_, ap (parse_match match_url match_auth str) e, port, path, query, pairs)
