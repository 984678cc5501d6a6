-- ===== src/Json.antt =====
-- encoding/json on strings, as cmd/netso-hub/main.go encodes its list of peers and
-- internal/hubclient/hubclient.go decodes it: every byte that is not part of a rune in UTF-8 is
-- written, and so read, as the replacement character U+FFFD. Every other text is read as it was.
pub mod Text
mod Examples
use netso.Common.{
  ℕ, zero, suc, ◌==◌, Bool, false, ◌||◌, ◌&&◌, List, [], ◌∷◌, if◌then◌else◌, ltb, leb,
}
use netso.Common.Bytes.{Bytes, has_prefix}
use netso.Registry.{Peer}

abbrev pub is_in : ℕ → ℕ → ℕ → Bool
is_in low high c = leb low c && leb c high

abbrev pub is_cont : ℕ → Bool
is_cont c = is_in 128 191 c

-- The length of a rune whose first byte has been read; 0 if what follows does not continue it.
abbrev pub size_two : Bytes → ℕ
size_two (d ∷ s) = if is_cont d then 2 else 0
size_two _ = 0

abbrev pub size_three : ℕ → ℕ → Bytes → ℕ
size_three low high (d ∷ e ∷ s) = if is_in low high d && is_cont e then 3 else 0
size_three low high _ = 0

abbrev pub size_four : ℕ → ℕ → Bytes → ℕ
size_four low high (d ∷ e ∷ f ∷ s) = if is_in low high d && (is_cont e && is_cont f) then 4 else 0
size_four low high _ = 0

-- `utf8.DecodeRune`: the length of the rune that starts with a byte; 0 stands for an invalid byte.
unfoldable pub rune_size : ℕ → Bytes → ℕ
rune_size c s =
    if ltb c 128
    then 1
    else if is_in 194 223 c
    then size_two s
    else if c == 224
    then size_three 160 191 s
    else if c == 237
    then size_three 128 159 s
    else if is_in 225 239 c
    then size_three 128 191 s
    else if c == 240
    then size_four 144 191 s
    else if c == 244
    then size_four 128 143 s
    else if is_in 241 243 c
    then size_four 128 191 s
    else 0

abbrev pub replacement : Bytes
replacement = 239 ∷ 191 ∷ 189 ∷ []

-- The rest of a text of which some bytes still belong to a rune.
unfoldable pub text_from : ℕ → Bytes → Bytes
text_from k [] = []
text_from (suc k) (c ∷ s) = c ∷ text_from k s
text_from zero (c ∷ s) = elim (rune_size c s) [
  | zero ↦ 239 ∷ 191 ∷ 189 ∷ text_from zero s
  | suc k ↦ c ∷ text_from k s
]

-- What is read of a string that was written.
unfoldable pub json_text : Bytes → Bytes
json_text s = text_from zero s

unfoldable pub json_peer : Peer → Peer
json_peer p = record {
  network = json_text p.network;
  name = json_text p.name;
  pubkey = json_text p.pubkey;
}

-- The replacement character stands somewhere in a text.
unfoldable pub has_replacement : Bytes → Bool
has_replacement [] = false
has_replacement (c ∷ s) = has_prefix (c ∷ s) replacement || has_replacement s
