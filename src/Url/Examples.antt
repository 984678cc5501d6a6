-- ===== src/Url/Examples.antt =====
-- A query that its reader takes apart as Go's does.
use netso.Common.{◌≡◌, refl, [], ◌∷◌}
use netso.Common.Bytes.{codes, str_eq}
use netso.Url.{query_of, parse_pieces, query_unescape, split, before, after, has_byte, get}

test_query :
    query_of (codes "ws://h/connect?a=1&b=%3d+x&;c=2&&d=%zz&a=3#f")
    ≡ (codes "a", codes "1") ∷ (codes "b", codes "= x") ∷ (codes "a", codes "3") ∷ []
unfolding query_of parse_pieces query_unescape split before after has_byte str_eq
test_query = refl

test_get : get (codes "b") (query_of (codes "?a=1")) ≡ []
unfolding query_of parse_pieces query_unescape split before after has_byte str_eq get
test_get = refl
