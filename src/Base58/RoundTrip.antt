-- ===== src/Base58/RoundTrip.antt =====
-- base58Encode of internal/did/did.go against a decoder that reads its text: the encoding loses
-- nothing, leading zero bytes included.
use mathlib.Core.List.{
  reverse, reverse-append, reverse-cons, reverse-reverse, append_assoc, append-nil, map-append,
}
use netso.Common.{
  ℕ, zero, suc, ◌+◌, ◌*◌, ◌/◌, ◌%◌, ◌<◌, ◌==◌, ◌≡◌, ◌≢◌, refl, ap, sym, ◌∙◌, Bool, ◌&&◌, true,
  false, List, [], ◌∷◌, ◌++◌, map, All, All-append, arith, inl, inr, Bool-cases, replicate,
  if◌then◌else◌,
}
use netso.Common.Bytes.{Bytes, IsByte}
use netso.Digits.{
  of_digits, to_digits, to_digits_zero, IsProper, of_digits-to_digits, to_digits-of_digits,
  to_digits_last, to_digits-bound, IsProper-snoc,
}
use netso.Base58.{alphabet, char_of, count_zeros, set_bytes, emit_digits, emit_zeros, base58_encode}

-- The place of a character in the alphabet.
unfoldable pub position : ℕ → Bytes → ℕ
position c [] = 0
position c (a ∷ s) = if a == c then 0 else suc (position c s)

unfoldable pub digit_of : ℕ → ℕ
unfolding position
digit_of c = position c alphabet

-- The characters before and from the first that is not '1'.
unfoldable pub count_ones : Bytes → ℕ
count_ones [] = 0
count_ones (c ∷ s) = elim (c == b'1') [ true ↦ suc (count_ones s) | false ↦ 0 ]

unfoldable pub skip_ones : Bytes → Bytes
skip_ones [] = []
skip_ones (c ∷ s) = elim (c == b'1') [ true ↦ skip_ones s | false ↦ c ∷ s ]

-- The number that base 58 digits spell, behind the number read so far.
unfoldable pub read_digits : ℕ → Bytes → ℕ
read_digits n [] = n
read_digits n (c ∷ s) = read_digits (n * 58 + digit_of c) s

-- The reference decoder.
unfoldable pub base58_decode : Bytes → Bytes
unfolding count_ones skip_ones read_digits digit_of
base58_decode s =
    let x = read_digits 0 (skip_ones s) in replicate (count_ones s) 0 ++ reverse (to_digits 256 x x)

-- The digits under a bound whose characters are read back.
reads_back : ℕ → Bool
reads_back zero = true
reads_back (suc d) = digit_of (char_of d) == d && reads_back d

reads_back_under : (bound d : ℕ) → d < bound → reads_back bound ≡ true → digit_of (char_of d) ≡ d
unfolding reads_back
reads_back_under zero d under table = absurd (omega arith)
reads_back_under (suc bound) d under table = ground (arith, reads_back_under bound d)

all_read_back : reads_back 58 ≡ true
unfolding reads_back digit_of char_of
all_read_back = refl

digit_of-char_of : (d : ℕ) → d < 58 → digit_of (char_of d) ≡ d
digit_of-char_of d under = reads_back_under 58 d under all_read_back

digit_of_one : digit_of b'1' ≡ 0
unfolding digit_of
digit_of_one = refl

char_of_zero : char_of 0 ≡ b'1'
unfolding char_of
char_of_zero = refl

char_of-ne-one : (d : ℕ) → 0 < d → d < 58 → char_of d ≢ b'1'
char_of-ne-one d p h e = omega (arith, digit_of-char_of d h, ap digit_of e, digit_of_one)

-- What the loops append.
emit_digits-to_digits :
    (f x : ℕ) (out : Bytes) → emit_digits f x out ≡ out ++ map char_of (to_digits 58 f x)
unfolding emit_digits to_digits
emit_digits-to_digits zero x out = sym (append-nil out)
emit_digits-to_digits (suc f) x out = elim (Bool-cases (x == 0)) [
  | inl e ↦ ground (arith, append-nil out)
  | inr e ↦ ground (
    arith,
    emit_digits-to_digits f (x / 58) (out ++ char_of (x % 58) ∷ []),
    append_assoc out (char_of (x % 58) ∷ []) (map char_of (to_digits 58 f (x / 58))),
  )
]

emit_zeros-replicate : (n : ℕ) (out : Bytes) → emit_zeros n out ≡ out ++ replicate n b'1'
unfolding emit_zeros
emit_zeros-replicate zero out = sym (append-nil out)
emit_zeros-replicate (suc n) out = rw (emit_zeros-replicate n, char_of_zero, append_assoc)

set_bytes-snoc : (s : Bytes) (n b : ℕ) → set_bytes n (s ++ b ∷ []) ≡ set_bytes n s * 256 + b
unfolding set_bytes
set_bytes-snoc [] n b = refl
set_bytes-snoc (c ∷ s) n b = set_bytes-snoc s (n * 256 + c) b

set_bytes-reverse : (ds : List ℕ) → set_bytes 0 (reverse ds) ≡ of_digits 256 ds
unfolding of_digits
set_bytes-reverse [] = unfold set_bytes in refl
set_bytes-reverse (d ∷ ds) = rw (reverse-cons, set_bytes-snoc) (omega (arith, set_bytes-reverse ds))

read_digits-snoc :
    (s : Bytes) (n c : ℕ) → read_digits n (s ++ c ∷ []) ≡ read_digits n s * 58 + digit_of c
unfolding read_digits
read_digits-snoc [] n c = refl
read_digits-snoc (a ∷ s) n c = read_digits-snoc s (n * 58 + digit_of a) c

read_digits-reverse :
    (ds : List ℕ)
    → All (λ d. d < 58) ds
    → read_digits 0 (reverse (map char_of ds)) ≡ of_digits 58 ds
unfolding of_digits
read_digits-reverse [] h = unfold read_digits in refl
read_digits-reverse (d ∷ ds) h =
    rw (reverse-cons, read_digits-snoc, digit_of-char_of d h.0)
      (omega (arith, read_digits-reverse ds h.1))

replicate-snoc {ℓ} : {A : Type ℓ} (n : ℕ) (a : A) → replicate n a ++ a ∷ [] ≡ a ∷ replicate n a
replicate-snoc zero a = refl
replicate-snoc (suc n) a = ap (◌∷◌ a) (replicate-snoc n a)

reverse-replicate {ℓ} : {A : Type ℓ} (n : ℕ) (a : A) → reverse (replicate n a) ≡ replicate n a
reverse-replicate zero a = refl
reverse-replicate (suc n) a = rw (reverse-cons, reverse-replicate n a) (replicate-snoc n a)

All-reverse {ℓ} : {A : Type ℓ} (P : A → Type 0) (l : List A) → All P l → All P (reverse l)
All-reverse P [] h = tt
All-reverse P (x ∷ l) h =
    rw reverse-cons (All-append P (reverse l) (x ∷ []) (All-reverse P l h.1) (h.0, tt))

-- The text is a '1' for each leading zero, and the digits of the number with the highest first.
pub base58_encode_lem :
    (s : Bytes)
    → let x = set_bytes 0 s in
      base58_encode s ≡ replicate (count_zeros s) b'1' ++ reverse (map char_of (to_digits 58 x x))
unfolding base58_encode
base58_encode_lem s =
    let x = set_bytes 0 s in
    rw (
      emit_zeros-replicate (count_zeros s),
      emit_digits-to_digits x x,
      reverse-append,
      reverse-replicate (count_zeros s),
    )

-- A text that is empty or begins with another character than '1'.
abbrev StartsPlain : Bytes → Type 0
StartsPlain [] = Unit
StartsPlain (c ∷ s) = c ≢ b'1'

count_ones-replicate : (n : ℕ) (r : Bytes) → StartsPlain r → count_ones (replicate n b'1' ++ r) ≡ n
unfolding count_ones
count_ones-replicate zero [] h = refl
count_ones-replicate zero (c ∷ r) h = ground arith
count_ones-replicate (suc n) r h = ap suc (count_ones-replicate n r h)

skip_ones-replicate : (n : ℕ) (r : Bytes) → StartsPlain r → skip_ones (replicate n b'1' ++ r) ≡ r
unfolding skip_ones
skip_ones-replicate zero [] h = refl
skip_ones-replicate zero (c ∷ r) h = ground arith
skip_ones-replicate (suc n) r h = skip_ones-replicate n r h

digits-StartsPlain : (x : ℕ) → StartsPlain (reverse (map char_of (to_digits 58 x x)))
digits-StartsPlain zero = rw to_digits_zero tt
digits-StartsPlain (suc n) =
    let (l, a, e, positive, lt) =
      to_digits_last 58 (omega arith) (suc n) (suc n) (omega arith) (omega arith) in
    rw (e, map-append, reverse-append) (char_of-ne-one a positive lt)

-- The bytes from the first that is not zero.
skip_zeros : Bytes → Bytes
skip_zeros [] = []
skip_zeros (b ∷ s) = elim (b == 0) [ true ↦ skip_zeros s | false ↦ b ∷ s ]

zeros_split : (s : Bytes) → replicate (count_zeros s) 0 ++ skip_zeros s ≡ s
unfolding count_zeros skip_zeros
zeros_split [] = refl
zeros_split (b ∷ s) = ground (arith, zeros_split s)

set_bytes-skip_zeros : (s : Bytes) → set_bytes 0 s ≡ set_bytes 0 (skip_zeros s)
unfolding set_bytes skip_zeros
set_bytes-skip_zeros [] = refl
set_bytes-skip_zeros (b ∷ s) = ground (arith, set_bytes-skip_zeros s)

skip_zeros_stop : (b : ℕ) (s : Bytes) → (b == 0) ≡ false → skip_zeros (b ∷ s) ≡ b ∷ s
unfolding skip_zeros
skip_zeros_stop b s e = ground arith

skip_zeros-IsByte : (s : Bytes) → All IsByte s → All IsByte (skip_zeros s)
unfolding skip_zeros
skip_zeros-IsByte [] h = tt
skip_zeros-IsByte (b ∷ s) h = elim (Bool-cases (b == 0)) [
  | inl e ↦ let z : b ≡ 0 = ground arith in rw z (skip_zeros-IsByte s h.1)
  | inr e ↦ rw (skip_zeros_stop b s e) h
]

skip_zeros-IsProper : (s : Bytes) → IsProper 256 (reverse (skip_zeros s))
unfolding skip_zeros
skip_zeros-IsProper [] = tt
skip_zeros-IsProper (b ∷ s) = elim (Bool-cases (b == 0)) [
  | inl e ↦ let z : b ≡ 0 = ground arith in rw z (skip_zeros-IsProper s)
  | inr e ↦
      rw (skip_zeros_stop b s e, reverse-cons)
        (IsProper-snoc 256 (omega arith) (reverse s) b (ground arith))
]

bytes_back :
    (s : Bytes)
    → All IsByte s
    → reverse (to_digits 256 (set_bytes 0 s) (set_bytes 0 s)) ≡ skip_zeros s
bytes_back s h =
    let x = set_bytes 0 s in
    let ds = reverse (skip_zeros s) in
    let value : x ≡ of_digits 256 ds =
      set_bytes-skip_zeros s
      ∙ ap (set_bytes 0) (sym (reverse-reverse (skip_zeros s)))
      ∙ set_bytes-reverse ds in
    let digits : to_digits 256 x (of_digits 256 ds) ≡ ds =
      to_digits-of_digits 256 (omega arith) ds x
        (All-reverse IsByte (skip_zeros s) (skip_zeros-IsByte s h)) (skip_zeros-IsProper s)
        (omega arith) in
    ap reverse (ap (to_digits 256 x) value ∙ digits) ∙ reverse-reverse (skip_zeros s)

-- Decoding the text of any bytes gives the bytes back.
pub decode-encode : (s : Bytes) → All IsByte s → base58_decode (base58_encode s) ≡ s
unfolding base58_decode
decode-encode s h =
    let x = set_bytes 0 s in
    let rest = reverse (map char_of (to_digits 58 x x)) in
    let plain = digits-StartsPlain x in
    let number : read_digits 0 rest ≡ x =
      read_digits-reverse (to_digits 58 x x) (to_digits-bound 58 (omega arith) x x)
      ∙ of_digits-to_digits 58 (omega arith) x x (omega arith) in
    let bytes : reverse (to_digits 256 x x) ≡ skip_zeros s = bytes_back s h in
    rw
      (
        base58_encode_lem s,
        count_ones-replicate (count_zeros s) rest plain,
        skip_ones-replicate (count_zeros s) rest plain,
        number,
        bytes,
      )
      (zeros_split s)
