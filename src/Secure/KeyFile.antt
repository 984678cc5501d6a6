-- ===== src/Secure/KeyFile.antt =====
-- internal/secure/secure.go: `LoadAuthorizedKeys` reads back the keys that a file was written with.
use netso.Common.{
  ℕ, ◌+◌, ◌≡◌, ◌≢◌, refl, sym, ap, subst, ◌∙◌, Bool, true, false, none, List, [], ◌∷◌, ◌++◌, All,
  map, arith,
}
use netso.Common.Bytes.{Bytes, IsByte, str_eq, has_prefix}
use netso.Common.Trim.{is_space, trim_left, trim_right}
use netso.Common.Result.{ok}
use netso.Base64.{encode_public}
use netso.Base64.RoundTrip.{
  IsWord, encode_public-IsWord, encode_public-begins, decode_public-encode_public,
}
use netso.Secure.{trim_space, until_space, first_field, scan_keys, load_authorized_keys}

-- What an administrator writes on a line: nothing, a comment, or a key with a label behind it.
pub data Line : Type 0 where
  blank : Line
  comment : Bytes → Line
  key : Bytes → Bytes → Line

abbrev pub IsBlank : Bytes → Type 0
IsBlank = All (λ c. is_space c ≡ true)

abbrev pub begins_space : Bytes → Bool
begins_space [] = true
begins_space (c ∷ s) = is_space c

-- A key is some bytes, and its label is set off by white space.
abbrev pub IsLine : Line → Type 0
IsLine Line.blank = Unit {0}
IsLine (Line.comment text) = Unit {0}
IsLine (Line.key k label) = (k ≢ []) × All IsByte k × (begins_space label ≡ true)

abbrev pub body_of : Line → Bytes
body_of Line.blank = []
body_of (Line.comment text) = b'#' ∷ text
body_of (Line.key k label) = encode_public k ++ label

-- The line behind its indentation.
abbrev pub render : Bytes × Line → Bytes
render (indent, line) = indent ++ body_of line

abbrev pub keys_in : List (Bytes × Line) → List Bytes
keys_in [] = []
keys_in ((_, Line.key k label) ∷ lines) = k ∷ keys_in lines
keys_in ((_, Line.blank) ∷ lines) = keys_in lines
keys_in ((_, Line.comment text) ∷ lines) = keys_in lines

trim_left-indent :
    (indent s : Bytes) → IsBlank indent → trim_left is_space (indent ++ s) ≡ trim_left is_space s
unfolding trim_left
trim_left-indent [] s spaces = refl
trim_left-indent (c ∷ indent) s spaces = rw spaces.0 (trim_left-indent indent s spaces.1)

trim_left-∷ : (c : ℕ) (s : Bytes) → is_space c ≡ false → trim_left is_space (c ∷ s) ≡ c ∷ s
unfolding trim_left
trim_left-∷ c s h = rw h refl

trim_right-word :
    (w s : Bytes) → IsWord w → trim_right is_space (w ++ s) ≡ w ++ trim_right is_space s
unfolding trim_right
trim_right-word [] s word = refl
trim_right-word (c ∷ w) s word = ground (arith, trim_right-word w s word.1)

begins_space-trim_right :
    (s : Bytes) → begins_space s ≡ true → begins_space (trim_right is_space s) ≡ true
unfolding trim_right
begins_space-trim_right [] h = refl
begins_space-trim_right (c ∷ s) h = ground arith

until_space-word : (w s : Bytes) → IsWord w → begins_space s ≡ true → until_space (w ++ s) ≡ w
until_space-word [] [] word h = refl
until_space-word [] (c ∷ s) word h = rw h refl
until_space-word (c ∷ w) s word h = rw word.0 (ap (◌∷◌ c) (until_space-word w s word.1 h))

-- A word behind an indentation, with anything set off behind it.
trim_space-word :
    (indent : Bytes) (c : ℕ) (w s : Bytes)
    → IsBlank indent
    → IsWord (c ∷ w)
    → trim_space (indent ++ (c ∷ w ++ s)) ≡ c ∷ w ++ trim_right is_space s
unfolding trim_space
trim_space-word indent c w s spaces word =
    ap (trim_right is_space)
      (trim_left-indent indent (c ∷ w ++ s) spaces ∙ trim_left-∷ c (w ++ s) word.0)
    ∙ trim_right-word (c ∷ w) s word

first_field-word :
    (c : ℕ) (w s : Bytes)
    → IsWord (c ∷ w)
    → begins_space s ≡ true
    → first_field (c ∷ w ++ s) ≡ c ∷ w
unfolding first_field
first_field-word c w s word h =
    ap until_space (trim_left-∷ c (w ++ s) word.0) ∙ until_space-word (c ∷ w) s word h

module _ (line : ℕ) (indent : Bytes) (rest : List Bytes) (spaces : IsBlank indent) where
  scan-blank : scan_keys line (render (indent, Line.blank) ∷ rest) ≡ scan_keys (line + 1) rest
  unfolding scan_keys trim_space trim_left trim_right str_eq
  scan-blank = rw (trim_left-indent indent [] spaces) refl

  scan-comment :
      (text : Bytes)
      → scan_keys line (render (indent, Line.comment text) ∷ rest) ≡ scan_keys (line + 1) rest
  unfolding scan_keys str_eq has_prefix
  scan-comment text = rw (trim_space-word indent b'#' [] text spaces (refl, tt)) refl

  scan-key :
      (k label : Bytes) (keys : List Bytes)
      → IsLine (Line.key k label)
      → scan_keys (line + 1) rest ≡ ok keys
      → scan_keys line (render (indent, Line.key k label) ∷ rest) ≡ ok (k ∷ keys)
  unfolding scan_keys str_eq has_prefix
  scan-key k label keys (some_bytes, bytes, set_off) later =
      let (c, w, text, not_space, not_hash) = encode_public-begins k bytes some_bytes in
      let word : IsWord (c ∷ w) = subst IsWord text (encode_public-IsWord k bytes) in
      let tail = trim_right is_space label in
      let trimmed : trim_space (indent ++ (encode_public k ++ label)) ≡ c ∷ w ++ tail =
        ap (λ t. trim_space (indent ++ (t ++ label))) text
        ∙ trim_space-word indent c w label spaces word in
      let field : first_field (c ∷ w ++ tail) ≡ encode_public k =
        first_field-word c w tail word (begins_space-trim_right label set_off) ∙ sym text in
      rw (trimmed, not_hash, field, decode_public-encode_public k bytes, later) refl

scan_keys-render :
    (line : ℕ) (lines : List (Bytes × Line))
    → All (λ l. IsBlank l.0 × IsLine l.1) lines
    → scan_keys line (map render lines) ≡ ok (keys_in lines)
unfolding scan_keys
scan_keys-render line [] h = refl
scan_keys-render line ((indent, Line.blank) ∷ lines) h =
    scan-blank line indent (map render lines) h.0.0 ∙ scan_keys-render (line + 1) lines h.1
scan_keys-render line ((indent, Line.comment text) ∷ lines) h =
    scan-comment line indent (map render lines) h.0.0 text ∙ scan_keys-render (line + 1) lines h.1
scan_keys-render line ((indent, Line.key k label) ∷ lines) h =
    scan-key line indent (map render lines) h.0.0 k label (keys_in lines) h.0.1
      (scan_keys-render (line + 1) lines h.1)

-- A file of blank lines, comments and keys, each line indented by any white space and each key with
-- any label that white space sets off from it, is read back as exactly its keys, in order, when the
-- file opens and its scan does not fail. The keys are some bytes each.
pub load_authorized_keys-render :
    (lines : List (Bytes × Line))
    → All (λ l. IsBlank l.0 × IsLine l.1) lines
    → load_authorized_keys (ok (record { lines = map render lines; failure = none }))
      ≡ ok (keys_in lines)
unfolding load_authorized_keys
load_authorized_keys-render lines h = rw (load_authorized_keys, scan_keys-render 0 lines h) refl
