-- ===== src/Url/Path.antt =====
-- The path of a URL that has a host.
use netso.Common.{
  ℕ, ◌==◌, false, [], ◌∷◌, ◌++◌, ◌≡◌, refl, ap, ◌∙◌, arith, append_assoc, if◌then◌else◌,
}
use netso.Common.Bytes.{Bytes, codes, has_prefix}
use netso.Url.{before, after, has_byte}
use netso.Url.Parse.{before-all, after-append}

-- From the first of a byte on.
from : ℕ → Bytes → Bytes
from sep [] = []
from sep (c ∷ s) = let rest = from sep s in if c == sep then c ∷ s else rest

-- What follows the authority, if there is one.
abbrev skip_authority : Bytes → Bytes
skip_authority (a ∷ b ∷ rest) =
    if has_prefix (a ∷ b ∷ []) (codes "//") then from b'/' rest else a ∷ b ∷ rest
skip_authority rest = rest

-- `Path` of a URL: what stands behind the scheme and the host, up to the query.
unfoldable pub path_of : Bytes → Bytes
unfolding from
path_of url = skip_authority (after b':' (before b'?' (before b'#' url)))

-- A URL of a scheme and a host, and nothing else.
abbrev pub IsRoot : Bytes → Type 0
IsRoot base =
    (scheme : Bytes) × (host : Bytes) × (base ≡ scheme ++ b':' ∷ b'/' ∷ b'/' ∷ host)
    × (has_byte b':' scheme ≡ false)
    × (has_byte b'/' host ≡ false)

from-append : (sep : ℕ) (w s : Bytes) → has_byte sep w ≡ false → from sep (w ++ sep ∷ s) ≡ sep ∷ s
unfolding from has_byte
from-append sep [] s h = ground arith
from-append sep (c ∷ w) s h = ground (arith, from-append sep w s)

before-before :
    (w s : Bytes)
    → has_byte b'?' w ≡ false
    → has_byte b'#' w ≡ false
    → before b'?' (before b'#' (w ++ b'?' ∷ s)) ≡ w
unfolding before has_byte
before-before [] s q f = refl
before-before (c ∷ w) s q f = ground (arith, before-before w s)

module _ (base path : Bytes) (root : IsRoot base) (q : has_byte b'?' (base ++ b'/' ∷ path) ≡ false)
    (f : has_byte b'#' (base ++ b'/' ∷ path) ≡ false) where
  behind_host : skip_authority (after b':' (base ++ b'/' ∷ path)) ≡ b'/' ∷ path
  unfolding has_prefix
  behind_host =
      let (scheme, host, made, colon, slash) = root in
      let whole : base ++ b'/' ∷ path ≡ scheme ++ b':' ∷ (b'/' ∷ b'/' ∷ (host ++ b'/' ∷ path)) =
        ap (λ b. b ++ b'/' ∷ path) made ∙ append_assoc scheme _ _ in
      ap (λ u. skip_authority (after b':' u)) whole
      ∙ ap skip_authority (after-append b':' scheme _ colon)
      ∙ from-append b'/' host path slash

  -- The path that is appended to a root, with a query behind it, or with none.
  pub path_of-render :
      (query : Bytes) → path_of ((base ++ b'/' ∷ path) ++ b'?' ∷ query) ≡ b'/' ∷ path
  unfolding path_of
  path_of-render query =
      ap (λ u. skip_authority (after b':' u)) (before-before (base ++ b'/' ∷ path) query q f)
      ∙ behind_host

  pub path_of-plain : path_of (base ++ b'/' ∷ path) ≡ b'/' ∷ path
  unfolding path_of
  path_of-plain =
      let w = base ++ b'/' ∷ path in
      ap (λ u. skip_authority (after b':' u))
        (ap (before b'?') (before-all b'#' w f) ∙ before-all b'?' w q)
      ∙ behind_host
