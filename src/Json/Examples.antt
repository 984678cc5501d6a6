-- ===== src/Json/Examples.antt =====
-- Texts that JSON keeps, and texts that it does not.
use netso.Common.{◌≡◌, refl, [], ◌∷◌, ◌++◌}
use netso.Common.Bytes.{Bytes, codes}
use netso.Json.{rune_size, text_from, json_text, replacement}

-- A rune of each length, the last outside the first plane.
abbrev runes : Bytes
runes = 97 ∷ 195 ∷ 169 ∷ 226 ∷ 130 ∷ 172 ∷ 240 ∷ 159 ∷ 152 ∷ 128 ∷ []

test_kept : json_text runes ≡ runes
unfolding json_text text_from rune_size
test_kept = refl

test_no_byte : json_text (97 ∷ 255 ∷ 98 ∷ []) ≡ 97 ∷ (replacement ++ (98 ∷ []))
unfolding json_text text_from rune_size
test_no_byte = refl

-- A surrogate and a rune that is cut off: one replacement for each byte.
test_surrogate : json_text (237 ∷ 160 ∷ 128 ∷ []) ≡ replacement ++ (replacement ++ replacement)
unfolding json_text text_from rune_size
test_surrogate = refl

test_cut : json_text (codes "a" ++ (226 ∷ 130 ∷ [])) ≡ codes "a" ++ (replacement ++ replacement)
unfolding json_text text_from rune_size
test_cut = refl
