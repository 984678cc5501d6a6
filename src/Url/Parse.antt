-- ===== src/Url/Parse.antt =====
-- net/url: a query that is put together from keys and escaped values parses into them.
use netso.Common.{
  ℕ, ◌==◌, ==_iff, Bool-cases, true, false, some, List, [], ◌∷◌, ◌++◌, All, ◌≡◌, ◌≢◌, refl, sym, ap,
  ◌∙◌, arith, inl, inr, append_assoc,
}
use netso.Common.Bytes.{Bytes, IsByte, str_eq}
use netso.Url.{
  is_unreserved, query_escape, query_unescape, split, before, after, has_byte, Query, parse_pieces,
  query_of,
}
use netso.Url.RoundTrip.{is_safe, IsSafe, query_escape-IsSafe, query_unescape-query_escape}

module _ (sep : ℕ) where
  pub before-all : (w : Bytes) → has_byte sep w ≡ false → before sep w ≡ w
  unfolding before has_byte
  before-all [] h = refl
  before-all (c ∷ w) h = ground (arith, before-all w)

  before-append : (w s : Bytes) → has_byte sep w ≡ false → before sep (w ++ sep ∷ s) ≡ w
  unfolding before has_byte
  before-append [] s h = ground arith
  before-append (c ∷ w) s h = ground (arith, before-append w s)

  pub after-append : (w s : Bytes) → has_byte sep w ≡ false → after sep (w ++ sep ∷ s) ≡ s
  unfolding after has_byte
  after-append [] s h = ground arith
  after-append (c ∷ w) s h = ground (arith, after-append w s)

  split-all : (w : Bytes) → has_byte sep w ≡ false → split sep w ≡ w ∷ []
  unfolding split has_byte
  split-all [] h = refl
  split-all (c ∷ w) h = ground (arith, split-all w)

  split-append : (w s : Bytes) → has_byte sep w ≡ false → split sep (w ++ sep ∷ s) ≡ w ∷ split sep s
  unfolding split has_byte
  split-append [] s h = ground arith
  split-append (c ∷ w) s h = ground (arith, split-append w s)

  pub has_byte-append :
      (w s : Bytes)
      → has_byte sep w ≡ false
      → has_byte sep s ≡ false
      → has_byte sep (w ++ s) ≡ false
  unfolding has_byte
  has_byte-append [] s h k = k
  has_byte-append (c ∷ w) s h k = ground (arith, has_byte-append w s)

-- Safe text has none of the bytes that mean something.
safe-has_byte : (b : ℕ) (w : Bytes) → is_safe b ≡ false → IsSafe w → has_byte b w ≡ false
unfolding has_byte
safe-has_byte b [] meant safe = refl
safe-has_byte b (c ∷ w) meant safe = elim (Bool-cases (c == b)) [
  | inl same ↦
      let e : is_safe c ≡ is_safe b = ap is_safe ((==_iff c b).0 same) in
      absurd (ground (arith, safe.0))
  | inr other ↦ rw other (safe-has_byte b w meant safe.1)
]

-- A key of a query: some bytes that stand for themselves.
abbrev pub IsKey : Bytes → Type 0
IsKey k = (k ≢ []) × All (λ c. is_unreserved c ≡ true) k

key-IsByte : (k : Bytes) → All (λ c. is_unreserved c ≡ true) k → All IsByte k
key-IsByte [] h = tt
key-IsByte (c ∷ k) h = (ground arith, key-IsByte k h.1)

key-IsSafe : (k : Bytes) → All (λ c. is_unreserved c ≡ true) k → IsSafe k
key-IsSafe [] h = tt
key-IsSafe (c ∷ k) h = (ground arith, key-IsSafe k h.1)

query_escape-key : (k : Bytes) → All (λ c. is_unreserved c ≡ true) k → query_escape k ≡ k
unfolding query_escape
query_escape-key [] h = refl
query_escape-key (c ∷ k) h = rw h.0 (ap (◌∷◌ c) (query_escape-key k h.1))

-- One parameter of a query, and several.
abbrev pub parameter : Bytes → Bytes → Bytes
parameter k v = k ++ b'=' ∷ query_escape v

abbrev pub render : List (Bytes × Bytes) → Bytes
render [] = []
render ((k, v) ∷ []) = k ++ b'=' ∷ query_escape v
render ((k, v) ∷ (k', v') ∷ q) = k ++ b'=' ∷ (query_escape v ++ b'&' ∷ render ((k', v') ∷ q))

abbrev pub IsParameter : Bytes × Bytes → Type 0
IsParameter p = IsKey p.0 × All IsByte p.1

parameter-has_byte :
    (b : ℕ) (k v : Bytes)
    → is_safe b ≡ false
    → (b'=' == b) ≡ false
    → IsParameter (k, v)
    → has_byte b (parameter k v) ≡ false
unfolding has_byte
parameter-has_byte b k v meant not_equals ((some_key, plain), bytes) =
    has_byte-append b k (b'=' ∷ query_escape v) (safe-has_byte b k meant (key-IsSafe k plain))
      (rw not_equals (safe-has_byte b (query_escape v) meant (query_escape-IsSafe v bytes)))

parameter-nonempty : (k s : Bytes) → k ≢ [] → str_eq (k ++ s) [] ≡ false
unfolding str_eq
parameter-nonempty [] s h = absurd (h refl)
parameter-nonempty (c ∷ k) s h = refl

parse_parameter :
    (k v : Bytes) (pieces : List Bytes)
    → IsParameter (k, v)
    → parse_pieces (parameter k v ∷ pieces) ≡ (k, v) ∷ parse_pieces pieces
unfolding parse_pieces
parse_parameter k v pieces ((some_key, plain), bytes) =
    let safe = key-IsSafe k plain in
    let no_equals = safe-has_byte b'=' k refl safe in
    let key : query_unescape (before b'=' (parameter k v)) ≡ some k =
      ap query_unescape
        (before-append b'=' k (query_escape v) no_equals ∙ sym (query_escape-key k plain))
      ∙ query_unescape-query_escape k (key-IsByte k plain) in
    let value : query_unescape (after b'=' (parameter k v)) ≡ some v =
      ap query_unescape (after-append b'=' k (query_escape v) no_equals)
      ∙ query_unescape-query_escape v bytes in
    let no_semicolon = parameter-has_byte b';' k v refl refl ((some_key, plain), bytes) in
    let nonempty = parameter-nonempty k (b'=' ∷ query_escape v) some_key in
    rw (no_semicolon, nonempty, key, value) refl

parse_render :
    (p : Bytes × Bytes) (q : Query)
    → IsParameter p
    → All IsParameter q
    → parse_pieces (split b'&' (render (p ∷ q))) ≡ p ∷ q
parse_render (k, v) [] h hs =
    ap parse_pieces (split-all b'&' (parameter k v) (parameter-has_byte b'&' k v refl refl h))
    ∙ parse_parameter k v [] h
    ∙ (unfold parse_pieces in refl)
parse_render (k, v) ((k', v') ∷ q) h hs =
    let rest = render ((k', v') ∷ q) in
    ap (λ s. parse_pieces (split b'&' s))
      (sym (append_assoc k (b'=' ∷ query_escape v) (b'&' ∷ rest)))
    ∙ ap parse_pieces
        (split-append b'&' (parameter k v) rest (parameter-has_byte b'&' k v refl refl h))
    ∙ parse_parameter k v (split b'&' rest) h
    ∙ ap (◌∷◌ (k, v)) (parse_render (k', v') q hs.0 hs.1)

render-has_byte :
    (p : Bytes × Bytes) (q : Query)
    → IsParameter p
    → All IsParameter q
    → has_byte b'#' (render (p ∷ q)) ≡ false
unfolding has_byte
render-has_byte (k, v) [] h hs = parameter-has_byte b'#' k v refl refl h
render-has_byte (k, v) ((k', v') ∷ q) h hs =
    let rest = render ((k', v') ∷ q) in
    ap (has_byte b'#') (sym (append_assoc k (b'=' ∷ query_escape v) (b'&' ∷ rest)))
    ∙ has_byte-append b'#' (parameter k v) (b'&' ∷ rest) (parameter-has_byte b'#' k v refl refl h)
        (render-has_byte (k', v') q hs.0 hs.1)

-- The query of a URL that is put together from a base without a fragment or a query and from
-- parameters, each a key that stands for itself and an escaped value: the parameters, in order.
pub query_of-render :
    (base : Bytes) (p : Bytes × Bytes) (q : Query)
    → has_byte b'#' base ≡ false
    → has_byte b'?' base ≡ false
    → IsParameter p
    → All IsParameter q
    → query_of (base ++ b'?' ∷ render (p ∷ q)) ≡ p ∷ q
unfolding query_of
query_of-render base p q no_fragment no_query h hs =
    let params = render (p ∷ q) in
    let whole : before b'#' (base ++ b'?' ∷ params) ≡ base ++ b'?' ∷ params =
      before-all b'#' (base ++ b'?' ∷ params) (
        has_byte-append b'#' base (b'?' ∷ params) no_fragment
          (unfold has_byte in render-has_byte p q h hs)) in
    ap (λ s. parse_pieces (split b'&' (after b'?' s))) whole
    ∙ ap (λ s. parse_pieces (split b'&' s)) (after-append b'?' base params no_query)
    ∙ parse_render p q h hs
