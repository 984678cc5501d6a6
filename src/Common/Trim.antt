-- ===== src/Common/Trim.antt =====
-- What the code uses of Go's package strings to cut the ends of a string.
use netso.Common.{
  ℕ, ◌≡◌, ◌≢◌, refl, sym, ap, ◌∙◌, Bool, true, false, ◌&&◌, [], ◌∷◌, ◌++◌, if◌then◌else◌, arith,
  ◌==◌, leb, ◌||◌,
}
use netso.Common.Bytes.{Bytes}

abbrev pub is_empty : Bytes → Bool
is_empty [] = true
is_empty (c ∷ s) = false

-- White space, on a line of ASCII text.
abbrev pub is_space : ℕ → Bool
is_space c = (leb 9 c && leb c 13) || c == 32

-- `strings.TrimLeft` and `strings.TrimRight` with the bytes that pass a test
unfoldable pub trim_left : (ℕ → Bool) → Bytes → Bytes
trim_left p [] = []
trim_left p (c ∷ s) = let rest = trim_left p s in if p c then rest else c ∷ s

unfoldable pub trim_right : (ℕ → Bool) → Bytes → Bytes
trim_right p [] = []
trim_right p (c ∷ s) = let rest = trim_right p s in if is_empty rest && p c then [] else c ∷ rest

abbrev pub is_slash : ℕ → Bool
is_slash c = c == 47

-- The rest of a string is kept whole when something of it is kept.
pub trim_right-∷ :
    (p : ℕ → Bool) (c : ℕ) (s : Bytes)
    → trim_right p s ≢ []
    → trim_right p (c ∷ s) ≡ c ∷ trim_right p s
unfolding trim_right
trim_right-∷ p c s kept = ground arith

append_nonempty : (a s : Bytes) → s ≢ [] → a ++ s ≢ []
append_nonempty [] s h = h
append_nonempty (c ∷ a) s h = λ e. ground arith

pub trim_right-append :
    (p : ℕ → Bool) (a s : Bytes) → trim_right p s ≢ [] → trim_right p (a ++ s) ≡ a ++ trim_right p s
trim_right-append p [] s kept = refl
trim_right-append p (c ∷ a) s kept =
    let rest = trim_right-append p a s kept in
    trim_right-∷ p c (a ++ s) (λ e. append_nonempty a (trim_right p s) kept (sym rest ∙ e))
    ∙ ap (◌∷◌ c) rest

pub trim_right-idempotent :
    (p : ℕ → Bool) (s : Bytes) → trim_right p (trim_right p s) ≡ trim_right p s
unfolding trim_right
trim_right-idempotent p [] = refl
trim_right-idempotent p (c ∷ s) = ground (arith, trim_right-idempotent p s)
