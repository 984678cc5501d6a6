-- ===== src/Common/Bytes.antt =====
-- Go's `string` and `[]byte`: a list of bytes, compared whole and by their order.
use Prim.Native.Char.{code}
use Prim.Native.String.{String}
use Prim.Native.Nat.{ℕ, ◌<◌}
use mathlib.Core.Path.{◌≡◌, refl}
use mathlib.Core.Logic.{◌↔◌, inl, inr}
use mathlib.Core.Bool.{Bool, true, false, ◌&&◌}
use mathlib.Core.List.{List, [], ◌∷◌, ◌++◌}
use native.Mathlib.Omega.{arith}
use netso.Common.Tests.{ltb, ◌==◌, if◌then◌else◌, Bool-cases}

abbrev pub Bytes : Type 0
Bytes = List ℕ

-- The bytes of a literal, which is ASCII throughout.
abbrev pub codes : String → Bytes
codes String.[] = []
codes (String.◌∷◌ letter text) = code letter ∷ codes text

abbrev pub IsByte : ℕ → Type 0
IsByte b = b < 256

-- `a == b` on strings.
unfoldable pub str_eq : Bytes → Bytes → Bool
str_eq [] [] = true
str_eq (a ∷ s) (b ∷ t) = a == b && str_eq s t
str_eq _ _ = false

pub str_eq_sound : (s t : Bytes) → str_eq s t ≡ true → s ≡ t
unfolding str_eq
str_eq_sound [] [] h = refl
str_eq_sound (a ∷ s) (b ∷ t) h = ground (arith, str_eq_sound s t)
str_eq_sound [] (b ∷ t) h = ground arith
str_eq_sound (a ∷ s) [] h = ground arith

pub str_eq_refl : (s : Bytes) → str_eq s s ≡ true
unfolding str_eq
str_eq_refl [] = refl
str_eq_refl (a ∷ s) = ground (arith, str_eq_refl s)

pub str_eq_complete : (s t : Bytes) → s ≡ t → str_eq s t ≡ true
str_eq_complete s t h = rw (← h) (str_eq_refl s)

pub str_eq_ne : (s t : Bytes) → ¬ (s ≡ t) → str_eq s t ≡ false
str_eq_ne s t h = elim (Bool-cases (str_eq s t)) [
  | inl same ↦ absurd (h (str_eq_sound s t same))
  | inr other ↦ other
]

pub str_eq_iff : (s t : Bytes) → (str_eq s t ≡ true) ↔ (s ≡ t)
str_eq_iff s t = (str_eq_sound s t, str_eq_complete s t)

pub str_eq_both : (a b c d : Bytes) → (str_eq a b && str_eq c d) ≡ true → (a ≡ b) × (c ≡ d)
str_eq_both a b c d h = ground (arith, str_eq_iff a b, str_eq_iff c d)

-- `a < b` on strings: the lexicographic order of the bytes.
unfoldable pub str_lt : Bytes → Bytes → Bool
str_lt s [] = false
str_lt [] (b ∷ t) = true
str_lt (a ∷ s) (b ∷ t) = let rest = str_lt s t in if a == b then rest else ltb a b

-- The order is irreflexive, transitive and total, so that sorting by it leaves no choice.
pub str_lt_irrefl : (s : Bytes) → str_lt s s ≡ false
unfolding str_lt
str_lt_irrefl [] = refl
str_lt_irrefl (a ∷ s) = ground (arith, str_lt_irrefl s)

pub str_lt_trans : (s t u : Bytes) → str_lt s t ≡ true → str_lt t u ≡ true → str_lt s u ≡ true
unfolding str_lt
str_lt_trans s [] u h k = ground arith
str_lt_trans s (b ∷ t) [] h k = ground arith
str_lt_trans [] (b ∷ t) (c ∷ u) h k = refl
str_lt_trans (a ∷ s) (b ∷ t) (c ∷ u) h k = ground (arith, str_lt_trans s t u)

pub str_lt_asymm : (s t : Bytes) → str_lt s t ≡ true → str_lt t s ≡ false
unfolding str_lt
str_lt_asymm s [] h = ground arith
str_lt_asymm [] (b ∷ t) h = refl
str_lt_asymm (a ∷ s) (b ∷ t) h = ground (arith, str_lt_asymm s t)

pub str_lt_total : (s t : Bytes) → str_lt s t ≡ false → str_eq s t ≡ false → str_lt t s ≡ true
unfolding str_lt str_eq
str_lt_total [] [] h k = ground arith
str_lt_total (a ∷ s) [] h k = refl
str_lt_total [] (b ∷ t) h k = ground arith
str_lt_total (a ∷ s) (b ∷ t) h k = ground (arith, str_lt_total s t)

-- `strings.HasPrefix`, the prefix second.
unfoldable pub has_prefix : Bytes → Bytes → Bool
has_prefix s [] = true
has_prefix [] (a ∷ p) = false
has_prefix (b ∷ s) (a ∷ p) = b == a && has_prefix s p

-- What stands behind a prefix.
unfoldable pub drop_prefix : Bytes → Bytes → Bytes
drop_prefix s [] = s
drop_prefix [] (a ∷ p) = []
drop_prefix (b ∷ s) (a ∷ p) = drop_prefix s p

-- `strings.TrimPrefix`
unfoldable pub trim_prefix : Bytes → Bytes → Bytes
unfolding has_prefix drop_prefix
trim_prefix s p = if has_prefix s p then drop_prefix s p else s

pub has_prefix-append : (p s : Bytes) → has_prefix (p ++ s) p ≡ true
unfolding has_prefix
has_prefix-append [] s = refl
has_prefix-append (a ∷ p) s = ground (arith, has_prefix-append p s)

pub drop_prefix-append : (p s : Bytes) → drop_prefix (p ++ s) p ≡ s
unfolding drop_prefix
drop_prefix-append [] s = refl
drop_prefix-append (a ∷ p) s = drop_prefix-append p s

pub trim_prefix-append : (p s : Bytes) → trim_prefix (p ++ s) p ≡ s
unfolding trim_prefix
trim_prefix-append p s = rw (has_prefix-append p s) (drop_prefix-append p s)

pub has_prefix-split : (s p : Bytes) → has_prefix s p ≡ true → s ≡ p ++ trim_prefix s p
unfolding has_prefix trim_prefix drop_prefix
has_prefix-split s [] h = ground arith
has_prefix-split [] (c ∷ p) h = absurd (ground arith)
has_prefix-split (d ∷ s) (c ∷ p) h = ground (arith, has_prefix-split s p)
