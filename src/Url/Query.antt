-- ===== src/Url/Query.antt =====
-- `_parse_query` of src/urlparser.c, and queries as they are written.
use libsimple.Base.{
  ℕ, ◌≡◌, refl, ap, sym, ◌∙◌, some, List, [], ◌∷◌, ◌++◌, append_assoc, append-nil, Bytes, arith,
}
use libsimple.Clib.Text.{Lacks, append-Lacks}
use libsimple.Clib.Tokens.{segments, drop_empty, tokens, segments-last, segments-append}
use mathlib.Core.List.{reverse, reverse-append}
use libsimple.Url.{KeyValue, split_at, parse_kv, add_pairs, parse_query, pushed}

-- Pairs that can be written in a query: no `=` or `&` in a key, and no `&` in a value.
abbrev pub IsQuery : List KeyValue → Type 0
IsQuery [] = Unit
IsQuery (kv ∷ kvs) = Lacks b'=' kv.key × Lacks b'&' kv.key × Lacks b'&' kv.value × IsQuery kvs

abbrev pub print_kv : KeyValue → Bytes
print_kv kv = kv.key ++ (b'=' ∷ kv.value)

-- `key1=value1&key2=value2&…`
abbrev pub print_query : List KeyValue → Bytes
print_query [] = []
print_query (kv ∷ []) = print_kv kv
print_query (kv ∷ next ∷ kvs) = print_kv kv ++ (b'&' ∷ print_query (next ∷ kvs))

split_at-append :
    (c : ℕ) (before after : Bytes)
    → Lacks c before
    → split_at c (before ++ (c ∷ after)) ≡ some (before, after)
unfolding split_at
split_at-append c [] after h = ground arith
split_at-append c (x ∷ before) after h = ground (arith, split_at-append c before after h.1)

parse_kv-print_kv : (kv : KeyValue) → Lacks b'=' kv.key → parse_kv (print_kv kv) ≡ some kv
unfolding parse_kv
parse_kv-print_kv kv h = ground (arith, split_at-append b'=' kv.key kv.value h)

print_kv-Lacks :
    (kv : KeyValue) → Lacks b'&' kv.key → Lacks b'&' kv.value → Lacks b'&' (print_kv kv)
print_kv-Lacks kv hk hv = append-Lacks b'&' kv.key (b'=' ∷ kv.value) hk (ground arith, hv)

-- A printed pair is not empty.
drop_empty-print_kv :
    (kv : KeyValue) (l : List Bytes) → drop_empty (print_kv kv ∷ l) ≡ print_kv kv ∷ drop_empty l
drop_empty-print_kv kv l = by_key kv.key
  where
    by_key :
        (k : Bytes)
        → drop_empty ((k ++ (b'=' ∷ kv.value)) ∷ l) ≡ (k ++ (b'=' ∷ kv.value)) ∷ drop_empty l
    by_key [] = unfold drop_empty in refl
    by_key (c ∷ k) = unfold drop_empty in refl

abbrev printed : List KeyValue → List Bytes
printed [] = []
printed (kv ∷ kvs) = print_kv kv ∷ printed kvs

tokens-print_query :
    (kvs : List KeyValue) → IsQuery kvs → tokens b'&' (print_query kvs) ≡ printed kvs
unfolding tokens drop_empty
tokens-print_query [] h = refl
tokens-print_query (kv ∷ []) h =
    ap (λ p. drop_empty (p.0 ∷ p.1)) (segments-last b'&' (print_kv kv) (print_kv-Lacks kv h.1 h.2))
    ∙ drop_empty-print_kv kv []
tokens-print_query (kv ∷ next ∷ kvs) h =
    let rest = print_query (next ∷ kvs) in
    ap (λ p. drop_empty (p.0 ∷ p.1))
      (segments-append b'&' (print_kv kv) rest (print_kv-Lacks kv h.1 h.2))
    ∙ drop_empty-print_kv kv ((segments b'&' rest).0 ∷ (segments b'&' rest).1)
    ∙ ap (◌∷◌ (print_kv kv)) (tokens-print_query (next ∷ kvs) h.3)

add_pairs-printed :
    (kvs pairs : List KeyValue) → IsQuery kvs → add_pairs (printed kvs) pairs ≡ reverse kvs ++ pairs
unfolding add_pairs
add_pairs-printed [] pairs h = refl
add_pairs-printed (kv ∷ kvs) pairs h =
    ap (λ o. add_pairs (printed kvs) (pushed o pairs)) (parse_kv-print_kv kv h.0)
    ∙ add_pairs-printed kvs (kv ∷ pairs) h.3
    ∙ sym
        (ap (◌++ pairs) (reverse-append (kv ∷ []) kvs) ∙ append_assoc (reverse kvs) (kv ∷ []) pairs)

-- `_parse_query` reads back every pair of a query that can be written, and keeps them in reverse
-- order, since each goes to the front of the list.
pub parse_query-print_query :
    (kvs : List KeyValue) → IsQuery kvs → parse_query (print_query kvs) ≡ reverse kvs
unfolding parse_query
parse_query-print_query kvs h =
    ap (λ ps. add_pairs ps []) (tokens-print_query kvs h)
    ∙ add_pairs-printed kvs [] h
    ∙ append-nil (reverse kvs)
