-- ===== src/Url.antt =====
-- What the agent, the clients and the hub use of Go's package net/url: the escaping of a value in a
-- query, and the query's parse into keys and values.
pub mod RoundTrip
pub mod Parse
pub mod Path
mod Examples
use netso.Common.{
  ℕ, ◌+◌, ◌-◌, ◌*◌, ◌/◌, ◌%◌, ◌==◌, ltb, leb, Bool, true, false, not, ◌||◌, ◌&&◌, Option, none,
  some, List, [], ◌∷◌, ◌++◌, if◌then◌else◌,
}
use netso.Common.Bytes.{Bytes, codes, str_eq}

-- The bytes that stand for themselves in a query.
abbrev pub is_unreserved : ℕ → Bool
is_unreserved c =
    (leb b'a' c && leb c b'z')
    || (leb b'A' c && leb c b'Z')
    || (leb b'0' c && leb c b'9')
    || c == b'-'
    || c == b'_'
    || c == b'.'
    || c == b'~'

abbrev pub hex_digit : ℕ → ℕ
hex_digit d = if ltb d 10 then 48 + d else 55 + d

abbrev pub escape_byte : ℕ → Bytes
escape_byte c =
    if is_unreserved c
    then c ∷ []
    else if c == 32
    then b'+' ∷ []
    else b'%' ∷ hex_digit (c / 16) ∷ hex_digit (c % 16) ∷ []

-- `url.QueryEscape`
unfoldable pub query_escape : Bytes → Bytes
query_escape [] = []
query_escape (c ∷ s) = escape_byte c ++ query_escape s

abbrev pub hex_value : ℕ → Option ℕ
hex_value c =
    if leb b'0' c && leb c b'9'
    then some (c - 48)
    else if leb b'A' c && leb c b'F'
    then some (c - 55)
    else if leb b'a' c && leb c b'f'
    then some (c - 87)
    else none

abbrev pub cons_byte : Option ℕ → Option ℕ → Option Bytes → Option Bytes
cons_byte (some a) (some b) (some s) = some ((a * 16 + b) ∷ s)
cons_byte _ _ _ = none

abbrev pub cons_plain : ℕ → Option Bytes → Option Bytes
cons_plain c none = none
cons_plain c (some s) = some ((if c == b'+' then 32 else c) ∷ s)

-- `url.QueryUnescape`
unfoldable pub query_unescape : Bytes → Option Bytes
query_unescape [] = some []
query_unescape (c ∷ []) = elim (c == b'%') [ true ↦ none | false ↦ cons_plain c (some []) ]
query_unescape (c ∷ d ∷ []) = elim (c == b'%') [
  | true ↦ none
  | false ↦ cons_plain c (query_unescape (d ∷ []))
]
query_unescape (c ∷ d ∷ e ∷ s) = elim (c == b'%') [
  | true ↦ cons_byte (hex_value d) (hex_value e) (query_unescape s)
  | false ↦ cons_plain c (query_unescape (d ∷ e ∷ s))
]

abbrev pub cons_first : ℕ → List Bytes → List Bytes
cons_first c [] = (c ∷ []) ∷ []
cons_first c (w ∷ rest) = (c ∷ w) ∷ rest

-- `strings.Split` by one byte, and the two halves of `strings.Cut`
unfoldable pub split : ℕ → Bytes → List Bytes
split sep [] = [] ∷ []
split sep (c ∷ s) = let rest = split sep s in if c == sep then [] ∷ rest else cons_first c rest

unfoldable pub before : ℕ → Bytes → Bytes
before sep [] = []
before sep (c ∷ s) = let rest = before sep s in if c == sep then [] else c ∷ rest

unfoldable pub after : ℕ → Bytes → Bytes
after sep [] = []
after sep (c ∷ s) = let rest = after sep s in if c == sep then s else rest

unfoldable pub has_byte : ℕ → Bytes → Bool
has_byte b [] = false
has_byte b (c ∷ s) = c == b || has_byte b s

abbrev pub Query : Type 0
Query = List (Bytes × Bytes)

abbrev pub cons_pair : Option Bytes → Option Bytes → Query → Query
cons_pair (some k) (some v) q = (k, v) ∷ q
cons_pair _ _ q = q

-- The loop of `url.ParseQuery`, whose errors `URL.Query` drops: a piece with a semicolon, an empty
-- piece and a piece that does not unescape are left out.
unfoldable pub parse_pieces : List Bytes → Query
parse_pieces [] = []
parse_pieces (piece ∷ pieces) =
    let rest = parse_pieces pieces in
    if has_byte b';' piece || str_eq piece []
    then rest
    else cons_pair (query_unescape (before b'=' piece)) (query_unescape (after b'=' piece)) rest

-- `URL.Query` of a URL: what stands behind the question mark, up to a fragment.
unfoldable pub query_of : Bytes → Query
query_of url = parse_pieces (split b'&' (after b'?' (before b'#' url)))

-- `Values.Get`
unfoldable pub get : Bytes → Query → Bytes
get key [] = []
get key ((k, v) ∷ q) = let rest = get key q in if str_eq k key then v else rest
