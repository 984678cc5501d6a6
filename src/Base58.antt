-- ===== src/Base58.antt =====
-- `base58Encode` of internal/did/did.go. A `big.Int` is a natural number; the loop of divisions
-- takes the number for its fuel, which is enough, since each round makes it smaller.
pub mod RoundTrip
use mathlib.Core.List.{reverse}
use netso.Common.{
  ℕ, zero, suc, ◌+◌, ◌*◌, ◌/◌, ◌%◌, ◌==◌, true, false, List, [], ◌∷◌, ◌++◌, get_or, if◌then◌else◌,
}
use netso.Common.Bytes.{Bytes, codes}

abbrev pub alphabet : Bytes
alphabet = codes "123456789ABCDEFGHJKLMNPQRSTUVWXYZabcdefghijkmnopqrstuvwxyz"

-- `b58Alphabet[d]`; a remainder by 58 is in range.
unfoldable pub char_of : ℕ → ℕ
char_of d = get_or alphabet d 0

-- `for zeros < len(input) && input[zeros] == 0 { zeros++ }`
unfoldable pub count_zeros : Bytes → ℕ
count_zeros [] = 0
count_zeros (b ∷ s) = elim (b == 0) [ true ↦ suc (count_zeros s) | false ↦ 0 ]

-- `SetBytes`: big-endian, behind the number read so far
unfoldable pub set_bytes : ℕ → Bytes → ℕ
set_bytes n [] = n
set_bytes n (b ∷ s) = set_bytes (n * 256 + b) s

-- `for x.Sign() > 0 { x.DivMod(x, radix, mod); out = append(out, b58Alphabet[mod.Int64()]) }`
unfoldable pub emit_digits : ℕ → ℕ → Bytes → Bytes
emit_digits zero x out = out
emit_digits (suc f) x out = elim (x == 0) [
  | true ↦ out
  | false ↦ emit_digits f (x / 58) (out ++ char_of (x % 58) ∷ [])
]

-- `for i := 0; i < zeros; i++ { out = append(out, b58Alphabet[0]) }`
unfoldable pub emit_zeros : ℕ → Bytes → Bytes
emit_zeros zero out = out
emit_zeros (suc n) out = emit_zeros n (out ++ char_of 0 ∷ [])

-- The last loop exchanges the ends of `out` inwards, which reverses it.
unfoldable pub base58_encode : Bytes → Bytes
unfolding count_zeros set_bytes emit_digits emit_zeros char_of
base58_encode input =
    let zeros = count_zeros input in
    let x = set_bytes 0 input in reverse (emit_zeros zeros (emit_digits x x []))
