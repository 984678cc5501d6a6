-- ===== src/Url/RoundTrip.antt =====
-- net/url: the values of a query come back as they were escaped.
use netso.Common.{
  ℕ, ◌+◌, ◌*◌, ◌/◌, ◌%◌, ◌<◌, ◌==◌, Bool, true, false, not, ◌||◌, some, [], ◌∷◌, ◌++◌, All, ◌≡◌,
  refl, arith, Bool-cases, inl, inr, All-append,
}
use netso.Common.Bytes.{Bytes, IsByte}
use netso.Url.{
  is_unreserved, hex_digit, escape_byte, query_escape, hex_value, cons_plain, query_unescape,
}

hex_value-hex_digit : (d : ℕ) → d < 16 → hex_value (hex_digit d) ≡ some d
hex_value-hex_digit d h = ground arith

-- A byte that is not a percent sign is read by itself.
query_unescape-plain :
    (c : ℕ) (s : Bytes)
    → (c == b'%') ≡ false
    → query_unescape (c ∷ s) ≡ cons_plain c (query_unescape s)
unfolding query_unescape
query_unescape-plain c [] h = rw (h, query_unescape) refl
query_unescape-plain c (d ∷ []) h = rw (h, query_unescape) refl
query_unescape-plain c (d ∷ e ∷ s) h = rw (h, query_unescape) refl

query_unescape-escape_byte :
    (c : ℕ) (s t : Bytes)
    → c < 256
    → query_unescape s ≡ some t
    → query_unescape (escape_byte c ++ s) ≡ some (c ∷ t)
unfolding query_unescape
query_unescape-escape_byte c s t h e = elim (Bool-cases (is_unreserved c)) [
  | inl plain ↦
      let not_percent : (c == b'%') ≡ false = ground arith in
      let not_plus : (c == b'+') ≡ false = ground arith in
      rw (plain, query_unescape-plain c s not_percent, e, not_plus) refl
  | inr other ↦ elim (Bool-cases (c == 32)) [
    | inl space ↦ rw (other, space, query_unescape-plain b'+' s refl, e) (ground arith)
    | inr odd ↦
        let high = hex_value-hex_digit (c / 16) (omega arith) in
        let low = hex_value-hex_digit (c % 16) (omega arith) in
        let sum : c / 16 * 16 + c % 16 ≡ c = omega arith in rw (other, odd, high, low, e, sum) refl
  ]
]

-- Unescaping the escape of any bytes gives the bytes back.
pub query_unescape-query_escape :
    (s : Bytes) → All IsByte s → query_unescape (query_escape s) ≡ some s
unfolding query_escape
query_unescape-query_escape [] h = unfold query_unescape in refl
query_unescape-query_escape (c ∷ s) h =
    query_unescape-escape_byte c (query_escape s) s h.0 (query_unescape-query_escape s h.1)

-- The bytes that have no meaning in a query.
abbrev pub is_safe : ℕ → Bool
is_safe c = not (c == b'&' || c == b'=' || c == b';' || c == b'#' || c == b'?')

abbrev pub IsSafe : Bytes → Type 0
IsSafe = All (λ c. is_safe c ≡ true)

hex_digit-is_safe : (d : ℕ) → d < 16 → is_safe (hex_digit d) ≡ true
hex_digit-is_safe d h = ground arith

escape_byte-IsSafe : (c : ℕ) → c < 256 → IsSafe (escape_byte c)
escape_byte-IsSafe c h = elim (Bool-cases (is_unreserved c)) [
  | inl plain ↦ rw plain (ground arith, tt)
  | inr other ↦ elim (Bool-cases (c == 32)) [
    | inl space ↦ rw (other, space) (refl, tt)
    | inr odd ↦
        rw (other, odd)
          (
            refl,
            (
              hex_digit-is_safe (c / 16) (omega arith),
              (hex_digit-is_safe (c % 16) (omega arith), tt),
            ),
          )
  ]
]

pub query_escape-IsSafe : (s : Bytes) → All IsByte s → IsSafe (query_escape s)
unfolding query_escape
query_escape-IsSafe [] h = tt
query_escape-IsSafe (c ∷ s) h =
    All-append (λ c. is_safe c ≡ true) (escape_byte c) (query_escape s) (escape_byte-IsSafe c h.0)
      (query_escape-IsSafe s h.1)
