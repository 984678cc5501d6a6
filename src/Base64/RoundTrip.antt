-- ===== src/Base64/RoundTrip.antt =====
-- internal/secure/secure.go: a key outlives its text.
use netso.Common.{
  ℕ, zero, suc, ◌+◌, ◌*◌, ◌/◌, ◌%◌, ◌<◌, ◌==◌, ltb, Bool, true, false, not, ◌&&◌, Option, none,
  some, [], ◌∷◌, All, All-map, ◌≡◌, ◌≢◌, refl, ap, ◌∙◌, arith,
}
use netso.Common.Bytes.{Bytes, IsByte}
use netso.Common.Trim.{is_space}
use netso.Base64.{
  letter_of, value_of, encode_public, is_break, skip_breaks, decode_quads, decode_public,
}

-- A letter of the alphabet: its value is its place, and it is no break, no padding and no space.
abbrev is_some_eq : Option ℕ → ℕ → Bool
is_some_eq none d = false
is_some_eq (some e) d = e == d

is_good : ℕ → Bool
is_good d =
    let c = letter_of d in
    is_some_eq (value_of c) d
    && not (is_break c)
    && not (c == b'=')
    && not (is_space c)
    && not (c == b'#')
    && ltb c 128

good_under : ℕ → Bool
good_under zero = true
good_under (suc d) = is_good d && good_under d

all_good : good_under 64 ≡ true
unfolding good_under is_good letter_of value_of
all_good = refl

good_at : (bound d : ℕ) → good_under bound ≡ true → d < bound → is_good d ≡ true
unfolding good_under
good_at zero d table under = absurd (omega arith)
good_at (suc bound) d table under = ground (arith, good_at bound d)

abbrev pub IsAscii : ℕ → Type 0
IsAscii c = c < 128

module _ (d : ℕ) (under : d < 64) where
  value_of-letter_of : value_of (letter_of d) ≡ some d
  unfolding is_good
  value_of-letter_of = ground (arith, good_at 64 d all_good under)

  letter_of-not_break : is_break (letter_of d) ≡ false
  unfolding is_good
  letter_of-not_break = ground (arith, good_at 64 d all_good under)

  letter_of-not_pad : (letter_of d == b'=') ≡ false
  unfolding is_good
  letter_of-not_pad = ground (arith, good_at 64 d all_good under)

  letter_of-not_space : is_space (letter_of d) ≡ false
  unfolding is_good
  letter_of-not_space = ground (arith, good_at 64 d all_good under)

  letter_of-not_hash : (letter_of d == b'#') ≡ false
  unfolding is_good
  letter_of-not_hash = ground (arith, good_at 64 d all_good under)

  letter_of-IsAscii : IsAscii (letter_of d)
  unfolding is_good
  letter_of-IsAscii = ground (arith, good_at 64 d all_good under)

-- The text has no breaks to skip.
skip_breaks-encode_public :
    (s : Bytes) → All IsByte s → skip_breaks (encode_public s) ≡ encode_public s
unfolding skip_breaks encode_public
skip_breaks-encode_public [] h = refl
skip_breaks-encode_public (a ∷ []) h =
    rw (letter_of-not_break (a / 4) (omega arith), letter_of-not_break (a % 4 * 16) (omega arith))
      refl
skip_breaks-encode_public (a ∷ b ∷ []) h =
    rw
      (
        letter_of-not_break (a / 4) (omega arith),
        letter_of-not_break (a % 4 * 16 + b / 16) (omega arith),
        letter_of-not_break (b % 16 * 4) (omega arith),
      )
      refl
skip_breaks-encode_public (a ∷ b ∷ c ∷ s) h =
    rw
      (
        letter_of-not_break (a / 4) (omega arith),
        letter_of-not_break (a % 4 * 16 + b / 16) (omega arith),
        letter_of-not_break (b % 16 * 4 + c / 64) (omega arith),
        letter_of-not_break (c % 64) (omega arith),
        skip_breaks-encode_public s h.1.1.1,
      )
      refl

decode_quads-encode_public : (s : Bytes) → All IsByte s → decode_quads (encode_public s) ≡ some s
unfolding decode_quads encode_public
decode_quads-encode_public [] h = refl
decode_quads-encode_public (a ∷ []) h =
    let e : a / 4 * 4 + a % 4 * 16 / 16 ≡ a = omega arith in
    rw (value_of-letter_of (a / 4) (omega arith), value_of-letter_of (a % 4 * 16) (omega arith), e)
      refl
decode_quads-encode_public (a ∷ b ∷ []) h =
    let e : a / 4 * 4 + (a % 4 * 16 + b / 16) / 16 ≡ a = omega arith in
    let f : (a % 4 * 16 + b / 16) % 16 * 16 + b % 16 * 4 / 4 ≡ b = omega arith in
    rw
      (
        value_of-letter_of (a / 4) (omega arith),
        value_of-letter_of (a % 4 * 16 + b / 16) (omega arith),
        value_of-letter_of (b % 16 * 4) (omega arith),
        letter_of-not_pad (b % 16 * 4) (omega arith),
        e,
        f,
      )
      refl
decode_quads-encode_public (a ∷ b ∷ c ∷ s) h =
    let e : a / 4 * 4 + (a % 4 * 16 + b / 16) / 16 ≡ a = omega arith in
    let f : (a % 4 * 16 + b / 16) % 16 * 16 + (b % 16 * 4 + c / 64) / 4 ≡ b = omega arith in
    let g : (b % 16 * 4 + c / 64) % 4 * 64 + c % 64 ≡ c = omega arith in
    rw
      (
        letter_of-not_pad (c % 64) (omega arith),
        value_of-letter_of (a / 4) (omega arith),
        value_of-letter_of (a % 4 * 16 + b / 16) (omega arith),
        value_of-letter_of (b % 16 * 4 + c / 64) (omega arith),
        value_of-letter_of (c % 64) (omega arith),
        decode_quads-encode_public s h.1.1.1,
        e,
        f,
        g,
      )
      (ground arith)

-- Decoding the text of any bytes gives the bytes back.
pub decode_public-encode_public :
    (s : Bytes) → All IsByte s → decode_public (encode_public s) ≡ some s
unfolding decode_public
decode_public-encode_public s h =
    ap decode_quads (skip_breaks-encode_public s h) ∙ decode_quads-encode_public s h

-- The text has no white space.
abbrev pub IsWord : Bytes → Type 0
IsWord = All (λ c. is_space c ≡ false)

pub encode_public-IsWord : (s : Bytes) → All IsByte s → IsWord (encode_public s)
unfolding encode_public
encode_public-IsWord [] h = tt
encode_public-IsWord (a ∷ []) h = (
  letter_of-not_space (a / 4) (omega arith),
  (letter_of-not_space (a % 4 * 16) (omega arith), (refl, (refl, tt))),
)
encode_public-IsWord (a ∷ b ∷ []) h = (
  letter_of-not_space (a / 4) (omega arith),
  (
    letter_of-not_space (a % 4 * 16 + b / 16) (omega arith),
    (letter_of-not_space (b % 16 * 4) (omega arith), (refl, tt)),
  ),
)
encode_public-IsWord (a ∷ b ∷ c ∷ s) h = (
  letter_of-not_space (a / 4) (omega arith),
  (
    letter_of-not_space (a % 4 * 16 + b / 16) (omega arith),
    (
      letter_of-not_space (b % 16 * 4 + c / 64) (omega arith),
      (letter_of-not_space (c % 64) (omega arith), encode_public-IsWord s h.1.1.1),
    ),
  ),
)

-- The text of some bytes begins with a letter, so neither a space nor a hash.
pub encode_public-begins :
    (s : Bytes)
    → All IsByte s
    → s ≢ []
    → (c : ℕ) × (w : Bytes) × (encode_public s ≡ c ∷ w)
      × (is_space c ≡ false)
      × ((c == b'#') ≡ false)
unfolding encode_public
encode_public-begins [] h some_bytes = absurd (some_bytes refl)
encode_public-begins (a ∷ []) h some_bytes = (
  letter_of (a / 4),
  _,
  refl,
  letter_of-not_space (a / 4) (omega arith),
  letter_of-not_hash (a / 4) (omega arith),
)
encode_public-begins (a ∷ b ∷ []) h some_bytes = (
  letter_of (a / 4),
  _,
  refl,
  letter_of-not_space (a / 4) (omega arith),
  letter_of-not_hash (a / 4) (omega arith),
)
encode_public-begins (a ∷ b ∷ c ∷ s) h some_bytes = (
  letter_of (a / 4),
  _,
  refl,
  letter_of-not_space (a / 4) (omega arith),
  letter_of-not_hash (a / 4) (omega arith),
)

pub encode_public-nonempty : (s : Bytes) → s ≢ [] → encode_public s ≢ []
unfolding encode_public
encode_public-nonempty [] some_bytes = absurd (some_bytes refl)
encode_public-nonempty (a ∷ []) some_bytes = λ e. ground arith
encode_public-nonempty (a ∷ b ∷ []) some_bytes = λ e. ground arith
encode_public-nonempty (a ∷ b ∷ c ∷ s) some_bytes = λ e. ground arith

pub encode_public-IsAscii : (s : Bytes) → All IsByte s → All IsAscii (encode_public s)
unfolding encode_public
encode_public-IsAscii [] h = tt
encode_public-IsAscii (a ∷ []) h = (
  letter_of-IsAscii (a / 4) (omega arith),
  (letter_of-IsAscii (a % 4 * 16) (omega arith), (omega arith, (omega arith, tt))),
)
encode_public-IsAscii (a ∷ b ∷ []) h = (
  letter_of-IsAscii (a / 4) (omega arith),
  (
    letter_of-IsAscii (a % 4 * 16 + b / 16) (omega arith),
    (letter_of-IsAscii (b % 16 * 4) (omega arith), (omega arith, tt)),
  ),
)
encode_public-IsAscii (a ∷ b ∷ c ∷ s) h = (
  letter_of-IsAscii (a / 4) (omega arith),
  (
    letter_of-IsAscii (a % 4 * 16 + b / 16) (omega arith),
    (
      letter_of-IsAscii (b % 16 * 4 + c / 64) (omega arith),
      (letter_of-IsAscii (c % 64) (omega arith), encode_public-IsAscii s h.1.1.1),
    ),
  ),
)

pub encode_public-IsByte : (s : Bytes) → All IsByte s → All IsByte (encode_public s)
encode_public-IsByte s h =
    All-map (λ c lt. omega arith) (encode_public s) (encode_public-IsAscii s h)
