-- ===== src/Secure/Identity/Persistence.antt =====
-- internal/secure/secure.go: an identity outlives the process that made it.
use netso.Common.{ℕ, ◌≡◌, ◌≢◌, refl, ap, ◌∙◌, true, none, some, [], ◌∷◌, ◌++◌, All, arith}
use netso.Common.Bytes.{Bytes, IsByte, codes, str_eq_ne, str_eq_refl}
use netso.Common.Result.{Result, ok}
use netso.Base64.{encode_public}
use netso.Base64.RoundTrip.{
  IsWord, encode_public-IsWord, encode_public-nonempty, decode_public-encode_public,
}
use netso.Map.{Map, get, put, get-put}
use netso.Common.Trim.{is_space}
use netso.Secure.{Error, Keypair}
use netso.Secure.Identity.{
  fields, cons_head, Faults, contents_of, parse_identity, create_identity, load_or_create_identity,
  resolve_identity,
}

fields-word :
    (w : Bytes) (c : ℕ) (s : Bytes)
    → w ≢ []
    → IsWord w
    → is_space c ≡ true
    → fields (w ++ c ∷ s) ≡ w ∷ fields s
unfolding fields
fields-word [] c s some_word word space = absurd (some_word refl)
fields-word (a ∷ []) c s some_word word space = rw (word.0, space) refl
fields-word (a ∷ b ∷ w) c s some_word word space =
    let rest = fields-word (b ∷ w) c s (λ e. ground arith) word.1 space in
    rw (word.0, word.1.0) (ap (cons_head (a ∷ [])) (rw word.1.0 at rest))

abbrev pub no_faults : Faults
no_faults = record { read = none; mkdir = none; write = none }

module _ (kp : Keypair) (bytes : All IsByte kp.private) (bytes' : All IsByte kp.public) where
  fields_of_contents :
      kp.private ≢ []
      → kp.public ≢ []
      → fields (contents_of (ok kp) kp) ≡ encode_public kp.private ∷ encode_public kp.public ∷ []
  unfolding fields
  fields_of_contents private public =
      fields-word (encode_public kp.private) 10 (encode_public kp.public ++ codes "\n")
        (encode_public-nonempty kp.private private) (encode_public-IsWord kp.private bytes) refl
      ∙ ap (◌∷◌ (encode_public kp.private)) (
          fields-word (encode_public kp.public) 10 [] (encode_public-nonempty kp.public public)
            (encode_public-IsWord kp.public bytes') refl)

  parsed :
      (generated : Result Error Keypair) (path : Bytes)
      → parse_identity generated path (encode_public kp.private ∷ encode_public kp.public ∷ [])
        ≡ ok kp
  unfolding parse_identity
  parsed generated path =
      rw
        (
          parse_identity,
          decode_public-encode_public kp.private bytes,
          decode_public-encode_public kp.public bytes',
        )
        refl

module _ (generated : Result Error Keypair) (path priv pub_key : Bytes) (files : Map Bytes) where
  loaded :
      (content : Bytes)
      → path ≢ []
      → get path files ≡ some content
      → resolve_identity generated path priv pub_key no_faults files
        ≡ (files, parse_identity generated path (fields content))
  unfolding resolve_identity load_or_create_identity
  loaded content given there = let named = str_eq_ne path [] given in ground arith

  created :
      (kp : Keypair)
      → path ≢ []
      → get path files ≡ none
      → generated ≡ ok kp
      → resolve_identity generated path priv pub_key no_faults files
        ≡ (put path (contents_of generated kp) files, ok kp)
  unfolding resolve_identity load_or_create_identity create_identity
  created kp given absent made = let named = str_eq_ne path [] given in ground arith

-- A device that names an identity file which is not there gets a fresh key, and from then on,
-- whatever other keys it names and whatever the generator would give, the same key, and the file
-- stays as it is. The system calls succeed, the halves of the key are bytes and not empty.
pub identity-persists :
    (kp : Keypair) (path priv pub_key priv' pub_key' : Bytes) (files : Map Bytes)
    (generated : Result Error Keypair)
    → All IsByte kp.private
    → All IsByte kp.public
    → path ≢ []
    → get path files ≡ none
    → kp.private ≢ []
    → kp.public ≢ []
    → let first = resolve_identity (ok kp) path priv pub_key no_faults files in
      (first.1 ≡ ok kp)
      × (resolve_identity generated path priv' pub_key' no_faults first.0 ≡ (first.0, ok kp))
identity-persists kp path priv pub_key priv' pub_key' files generated bytes bytes' given absent
      private public =
    let content = contents_of (ok kp) kp in
    let files' = put path content files in
    let made = created (ok kp) path priv pub_key files kp given absent refl in
    let stored : get path files' ≡ some content =
      get-put path path content files ∙ rw (str_eq_refl path) refl in
    let read : parse_identity generated path (fields content) ≡ ok kp =
      ap (parse_identity generated path) (fields_of_contents kp bytes bytes' private public)
      ∙ parsed kp bytes bytes' generated path in
    let again = loaded generated path priv' pub_key' files' content given stored in
    rw made (refl, again ∙ ap (λ r. (files', r)) read)
