-- ===== src/Url.antt =====
-- src/urlparser.c: a URL taken apart by two regular expressions, and its query into pairs. The
-- matcher (src/regex.c) is another project's library: what it answers is an argument.
pub mod Query
pub mod Parts
use libsimple.Base.{
  ℕ, ◌+◌, ◌-◌, Bool, true, false, Option, none, some, List, [], ◌∷◌, Bytes, take, drop, ◌==◌,
  if◌then◌else◌,
}
use libsimple.Clib.Text.{c_string, codes}
use libsimple.Clib.Tokens.{tokens}

-- key_value_t
pub record KeyValue : Type 0 where
  pub key : Bytes
  pub value : Bytes

-- url_t; `query_pairs` in the order of `list_for_each`.
pub record Url : Type 0 where
  pub schema : Bytes
  pub username : Bytes
  pub passwd : Bytes
  pub host : Bytes
  pub port : Bytes
  pub path : Bytes
  pub query : Bytes
  pub fragment : Bytes
  pub query_pairs : List KeyValue

-- my_strndup; `n` is 0 where the code passes a number that is not positive.
unfoldable pub my_strndup : Bytes → ℕ → Bytes
my_strndup s n = c_string (take n s)

-- what comes before the first `c`, and behind it: `strchr(p, c)`
unfoldable pub split_at : ℕ → Bytes → Option (Bytes × Bytes)
split_at c [] = none
split_at c (x ∷ s) =
    if x == c
    then some ([], s)
    else elim (split_at c s) [ none ↦ none | some (before, after) ↦ some (x ∷ before, after) ]

-- _parse_kv
unfoldable pub parse_kv : Bytes → Option KeyValue
parse_kv p = elim (split_at b'=' p) [
  | none ↦ none
  | some (key, value) ↦ some (record { key = key; value = value })
]

-- `if (kv) list_add(kv, head)`
abbrev pub pushed : Option KeyValue → List KeyValue → List KeyValue
pushed none pairs = pairs
pushed (some kv) pairs = kv ∷ pairs

-- the loop of _parse_query: each pair goes to the front of the list
unfoldable pub add_pairs : List Bytes → List KeyValue → List KeyValue
add_pairs [] pairs = pairs
add_pairs (p ∷ ps) pairs = add_pairs ps (pushed (parse_kv p) pairs)

-- _parse_query
unfoldable pub parse_query : Bytes → List KeyValue
parse_query query = add_pairs (tokens b'&' query) []

-- The places of the parts of a match, `rm_so` and `rm_eo`; `none` where both are -1.
abbrev pub Match : Type 0
Match = ℕ → Option (ℕ × ℕ)

-- `my_strndup(str + subs[i].rm_so, subs[i].rm_eo - subs[i].rm_so)`
abbrev pub part : Bytes → Option (ℕ × ℕ) → Bytes
part str none = []
part str (some (so, eo)) = my_strndup (drop so str) (eo - so)

-- `strdup("80")` where part 6 has not taken part in the match
abbrev pub port_part : Bytes → Option (ℕ × ℕ) → Bytes
port_part str none = codes "80"
port_part str (some span) = part str (some span)

-- The two calls of `regexec`, for the URL and for the authority in it.
module _ (match_url match_auth : Bytes → Option Match) where
  -- the fields that come from the authority
  unfoldable pub with_authority : Bytes → Option Match → Url → Url
  with_authority authority none url = record url {
    username = [];
    passwd = [];
    host = [];
    port = codes "80";
  }
  with_authority authority (some subs) url = record url {
    username = part authority (subs 2);
    passwd = part authority (subs 3);
    host = part authority (subs 4);
    port = port_part authority (subs 6);
  }

  pub parse_match : Bytes → Option Match → Option Url
  parse_match str none = none
  parse_match str (some subs) =
      let authority = part str (subs 4) in
      let query = part str (subs 7) in
      some (
        with_authority authority (match_auth authority) (record {
          schema = part str (subs 2);
          username = [];
          passwd = [];
          host = [];
          port = [];
          path = part str (subs 5);
          query = query;
          fragment = part str (subs 9);
          query_pairs = parse_query query;
        }))

  -- simple_url_parse
  unfoldable pub parse_url : Bytes → Option Url
  unfolding parse_match with_authority
  parse_url str = parse_match str (match_url str)
