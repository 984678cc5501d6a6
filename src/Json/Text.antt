-- ===== src/Json/Text.antt =====
-- encoding/json: which strings are read as they were written, and that no other string becomes one
-- of them.
use netso.Common.{
  ℕ, zero, suc, ◌<◌, ltb, true, false, [], ◌∷◌, All, ◌≡◌, ◌≢◌, ◌⊎◌, refl, sym, ap, ◌∙◌, arith, inl,
  inr,
}
use netso.Common.Bytes.{Bytes, has_prefix, str_eq, str_eq_ne}
use netso.Json.{rune_size, text_from, json_text, has_replacement}

-- A text in UTF-8 without the replacement character.
abbrev pub IsText : Bytes → Type 0
IsText s = (json_text s ≡ s) × (has_replacement s ≡ false)

rune_size_ascii : (c : ℕ) (s : Bytes) → c < 128 → rune_size c s ≡ 1
unfolding rune_size
rune_size_ascii c s h = let e : ltb c 128 ≡ true = ground arith in rw e refl

text_from-ascii : (s : Bytes) → All (λ c. c < 128) s → text_from zero s ≡ s
unfolding text_from
text_from-ascii [] h = refl
text_from-ascii (c ∷ s) h =
    rw (rune_size_ascii c s h.0, text_from) (ap (λ t. c ∷ t) (text_from-ascii s h.1))

pub json_text-ascii : (s : Bytes) → All (λ c. c < 128) s → json_text s ≡ s
unfolding json_text
json_text-ascii s h = text_from-ascii s h

has_replacement-next :
    (c : ℕ) (s : Bytes) → has_replacement s ≡ true → has_replacement (c ∷ s) ≡ true
unfolding has_replacement
has_replacement-next c s h = ground arith

has_replacement-here : (s : Bytes) → has_replacement (239 ∷ 191 ∷ 189 ∷ s) ≡ true
unfolding has_replacement has_prefix
has_replacement-here s = refl

more :
    (c : ℕ) (t s : Bytes)
    → (t ≡ s) ⊎ (has_replacement t ≡ true)
    → (c ∷ t ≡ c ∷ s) ⊎ (has_replacement (c ∷ t) ≡ true)
more c t s (inl same) = inl (ap (λ u. c ∷ u) same)
more c t s (inr h) = inr (has_replacement-next c t h)

ℕ-cases : (n : ℕ) → (n ≡ 0) ⊎ ((k : ℕ) × (n ≡ suc k))
ℕ-cases zero = inl refl
ℕ-cases (suc k) = inr (k, refl)

-- A text is read as it was, or with the replacement character.
text_from-cases :
    (k : ℕ) (s : Bytes) → (text_from k s ≡ s) ⊎ (has_replacement (text_from k s) ≡ true)
unfolding text_from
text_from-cases k [] = inl refl
text_from-cases (suc k) (c ∷ s) = more c (text_from k s) s (text_from-cases k s)
text_from-cases zero (c ∷ s) = elim (ℕ-cases (rune_size c s)) [
  | inl invalid ↦ rw (invalid, text_from) (inr (has_replacement-here (text_from zero s)))
  | inr (k, valid) ↦ rw (valid, text_from) (more c (text_from k s) s (text_from-cases k s))
]

has_replacement-ne : (s t : Bytes) → has_replacement s ≡ true → has_replacement t ≡ false → s ≢ t
has_replacement-ne s t h k e = cc

-- A string that is read as a text without the replacement character was that text.
pub json_text-only : (s t : Bytes) → IsText t → str_eq (json_text s) t ≡ str_eq s t
unfolding json_text
json_text-only s t (keeps, clean) = elim (text_from-cases zero s) [
  | inl same ↦ ap (λ u. str_eq u t) same
  | inr h ↦
      let read = str_eq_ne (text_from zero s) t (has_replacement-ne (text_from zero s) t h clean) in
      let stored = str_eq_ne s t (λ e.
        has_replacement-ne (text_from zero t) t
          (ap (λ u. has_replacement (text_from zero u)) (sym e) ∙ h) clean keeps) in
      read ∙ sym stored
]
