-- ===== src/Tests/Url.antt =====
-- The theorems on src/urlparser.c at a small URL.
use libsimple.Base.{◌≡◌, List, [], ◌∷◌, arith}
use mathlib.Core.List.{reverse}
use libsimple.Clib.Text.{codes}
use libsimple.Url.{KeyValue, parse_query}
use libsimple.Url.Query.{parse_query-print_query}

abbrev query : List KeyValue
query =
    record { key = codes "a"; value = codes "1" }
    ∷ record { key = codes "b"; value = codes "x=y" }
    ∷ []

parse_query-print_query_example : parse_query (codes "a=1&b=x=y") ≡ reverse query
parse_query-print_query_example = parse_query-print_query query (ground arith)
