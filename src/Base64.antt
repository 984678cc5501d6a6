-- ===== src/Base64.antt =====
-- `EncodePublic` and `DecodePublic` of internal/secure/secure.go: the standard encoding of Go's package
-- encoding/base64, written out. The decoder skips line breaks, wants the padding, and takes any bits
-- behind the last byte.
pub mod RoundTrip
mod Examples
use netso.Common.{
  ℕ, zero, suc, ◌+◌, ◌*◌, ◌/◌, ◌%◌, ◌==◌, Bool, ◌||◌, ◌&&◌, Option, none, some, List, [], ◌∷◌,
  get_or, if◌then◌else◌,
}
use netso.Common.Bytes.{Bytes, codes}

abbrev pub alphabet64 : Bytes
alphabet64 = codes "ABCDEFGHIJKLMNOPQRSTUVWXYZabcdefghijklmnopqrstuvwxyz0123456789+/"

unfoldable pub letter_of : ℕ → ℕ
letter_of d = get_or alphabet64 d 0

-- Where a letter stands behind a place in the alphabet.
abbrev pub place_from : ℕ → ℕ → Bytes → Option ℕ
place_from c i [] = none
place_from c i (a ∷ rest) =
    let later = place_from c (i + 1) rest in if a == c then some i else later

unfoldable pub value_of : ℕ → Option ℕ
value_of c = place_from c 0 alphabet64

-- Three bytes at a time, the last one or two with padding.
unfoldable pub encode_public : Bytes → Bytes
unfolding letter_of
encode_public [] = []
encode_public (a ∷ []) = letter_of (a / 4) ∷ letter_of (a % 4 * 16) ∷ b'=' ∷ b'=' ∷ []
encode_public (a ∷ b ∷ []) =
    letter_of (a / 4) ∷ letter_of (a % 4 * 16 + b / 16) ∷ letter_of (b % 16 * 4) ∷ b'=' ∷ []
encode_public (a ∷ b ∷ c ∷ s) =
    letter_of (a / 4)
    ∷ letter_of (a % 4 * 16 + b / 16)
    ∷ letter_of (b % 16 * 4 + c / 64)
    ∷ letter_of (c % 64)
    ∷ encode_public s

abbrev pub is_break : ℕ → Bool
is_break c = c == 10 || c == 13

unfoldable pub skip_breaks : Bytes → Bytes
skip_breaks [] = []
skip_breaks (c ∷ s) = let rest = skip_breaks s in if is_break c then rest else c ∷ rest

abbrev pub is_end : Bytes → Bool
is_end [] = Bool.true
is_end (c ∷ s) = Bool.false

-- The bytes of two, three and four digits.
abbrev pub one_byte : Option ℕ → Option ℕ → Option Bytes
one_byte (some w) (some x) = some ((w * 4 + x / 16) ∷ [])
one_byte _ _ = none

abbrev pub two_bytes : Option ℕ → Option ℕ → Option ℕ → Option Bytes
two_bytes (some w) (some x) (some y) = some ((w * 4 + x / 16) ∷ (x % 16 * 16 + y / 4) ∷ [])
two_bytes _ _ _ = none

abbrev pub three_bytes : Option ℕ → Option ℕ → Option ℕ → Option ℕ → Option Bytes → Option Bytes
three_bytes (some w) (some x) (some y) (some z) (some rest) =
    some ((w * 4 + x / 16) ∷ (x % 16 * 16 + y / 4) ∷ (y % 4 * 64 + z) ∷ rest)
three_bytes _ _ _ _ _ = none

-- Four letters at a time; the padding ends the text.
unfoldable pub decode_quads : Bytes → Option Bytes
decode_quads [] = some []
decode_quads (w ∷ x ∷ y ∷ z ∷ s) =
    let rest = three_bytes (value_of w) (value_of x) (value_of y) (value_of z) (decode_quads s) in
    if is_end s && z == b'='
    then (if y == b'='
        then one_byte (value_of w) (value_of x)
        else two_bytes (value_of w) (value_of x) (value_of y))
    else rest
decode_quads _ = none

unfoldable pub decode_public : Bytes → Option Bytes
decode_public s = decode_quads (skip_breaks s)
