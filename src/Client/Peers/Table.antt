-- ===== src/Client/Peers/Table.antt =====
-- cmd/netso/main.go: the table of `netso peers` can be read back.
use netso.Common.{
  ℕ, zero, suc, ◌-◌, ◌==◌, ◌≡◌, refl, sym, ap, ◌∙◌, Bool, false, List, [], ◌∷◌, ◌++◌, map, drop,
  replicate, All, All-append, append_assoc, arith, if◌then◌else◌,
}
use mathlib.Core.Path.{ap₂}
use netso.Common.Bytes.{Bytes, codes}
use netso.Registry.{Peer}
use netso.Client.Peers.{row, rows, listing}

-- What stands before the first of a byte, and what behind it.
unfoldable pub cut : ℕ → Bytes → Bytes × Bytes
cut c [] = ([], [])
cut c (b ∷ s) = let r = cut c s in if b == c then ([], s) else (b ∷ r.0, r.1)

abbrev pub add_head : ℕ → List Bytes → List Bytes
add_head b [] = (b ∷ []) ∷ []
add_head b (line ∷ rest) = (b ∷ line) ∷ rest

unfoldable pub lines : Bytes → List Bytes
lines [] = []
lines (b ∷ s) = let r = lines s in if b == 10 then [] ∷ r else add_head b r

unfoldable pub skip_spaces : Bytes → Bytes
skip_spaces [] = []
skip_spaces (b ∷ s) = let r = skip_spaces s in if b == 32 then r else b ∷ s

-- The name up to the first space, and the key behind the spaces.
abbrev pub read_row : Bytes → Bytes × Bytes
read_row line = let (name, rest) = cut 32 line in (name, skip_spaces rest)

-- The rows behind the head of the table.
abbrev pub read_table : Bytes → List (Bytes × Bytes)
read_table s = map read_row (drop 1 (lines s))

abbrev pub IsNot : ℕ → ℕ → Type 0
IsNot c b = (b == c) ≡ false

abbrev pub starts_with_space : Bytes → Bool
starts_with_space [] = false
starts_with_space (b ∷ s) = b == 32

-- A name without spaces and line ends, and a key without line ends and with no space in front.
pub record IsPlain (p : Peer) : Type 0 where
  pub name_spaces : All (IsNot 32) p.name
  pub name_lines : All (IsNot 10) p.name
  pub key_lines : All (IsNot 10) p.pubkey
  pub key_space : starts_with_space p.pubkey ≡ false

cut-append : (c : ℕ) (a s : Bytes) → All (IsNot c) a → cut c (a ++ c ∷ s) ≡ (a, s)
unfolding cut
cut-append c [] s h = ground arith
cut-append c (b ∷ a) s h = ground (arith, cut-append c a s h.1)

lines-append : (a s : Bytes) → All (IsNot 10) a → lines (a ++ 10 ∷ s) ≡ a ∷ lines s
unfolding lines
lines-append [] s h = refl
lines-append (b ∷ a) s h = rw (h.0, lines-append a s h.1) refl

spaces-shift : (k : ℕ) (s : Bytes) → replicate k 32 ++ 32 ∷ s ≡ 32 ∷ (replicate k 32 ++ s)
spaces-shift zero s = refl
spaces-shift (suc k) s = ap (◌∷◌ 32) (spaces-shift k s)

skip_spaces-spaces : (k : ℕ) (s : Bytes) → skip_spaces (replicate k 32 ++ s) ≡ skip_spaces s
unfolding skip_spaces
skip_spaces-spaces zero s = refl
skip_spaces-spaces (suc k) s = skip_spaces-spaces k s

skip_spaces-none : (s : Bytes) → starts_with_space s ≡ false → skip_spaces s ≡ s
unfolding skip_spaces
skip_spaces-none [] h = refl
skip_spaces-none (b ∷ s) h = rw h refl

spaces-IsNot : (k : ℕ) → All (IsNot 10) (replicate k 32)
spaces-IsNot zero = tt
spaces-IsNot (suc k) = (refl, spaces-IsNot k)

module _ (runes : Bytes → ℕ) (quote : Bytes → Bytes) where
  -- A row without the end of its line.
  abbrev line : Bytes → Bytes → Bytes
  line name pubkey = name ++ (replicate (20 - runes name) 32 ++ 32 ∷ pubkey)

  row_lem : (name pubkey s : Bytes) → row runes quote name pubkey ++ s ≡ line name pubkey ++ 10 ∷ s
  row_lem name pubkey s =
      let k = replicate (20 - runes name) 32 in
      append_assoc (name ++ k) (32 ∷ (pubkey ++ 10 ∷ [])) s
      ∙ append_assoc name k _
      ∙ ap (λ r. name ++ (k ++ 32 ∷ r)) (append_assoc pubkey (10 ∷ []) s)
      ∙ ap (λ r. name ++ r) (sym (append_assoc k (32 ∷ pubkey) (10 ∷ s)))
      ∙ sym (append_assoc name (k ++ 32 ∷ pubkey) (10 ∷ s))

  line-IsNot :
      (name pubkey : Bytes)
      → All (IsNot 10) name
      → All (IsNot 10) pubkey
      → All (IsNot 10) (line name pubkey)
  line-IsNot name pubkey h k = All-append (IsNot 10) name _ h (
      All-append (IsNot 10) (replicate (20 - runes name) 32) (32 ∷ pubkey)
        (spaces-IsNot (20 - runes name)) (refl, k))

  read_row-line : (p : Peer) → IsPlain p → read_row (line p.name p.pubkey) ≡ (p.name, p.pubkey)
  read_row-line p h =
      let k = 20 - runes p.name in
      ap (λ r. read_row (p.name ++ r)) (spaces-shift k p.pubkey)
      ∙ ap (λ r. (r.0, skip_spaces r.1))
          (cut-append 32 p.name (replicate k 32 ++ p.pubkey) h.name_spaces)
      ∙ ap (λ r. (p.name, r))
          (skip_spaces-spaces k p.pubkey ∙ skip_spaces-none p.pubkey h.key_space)

  read-rows :
      (peers : List Peer)
      → All IsPlain peers
      → map read_row (lines (rows runes quote peers)) ≡ map (λ p. (p.name, p.pubkey)) peers
  unfolding lines
  read-rows [] h = refl
  read-rows (p ∷ peers) h =
      ap (λ s. map read_row (lines s)) (row_lem p.name p.pubkey (rows runes quote peers))
      ∙ ap (map read_row) (
          lines-append (line p.name p.pubkey) (rows runes quote peers)
            (line-IsNot p.name p.pubkey h.0.name_lines h.0.key_lines))
      ∙ ap₂ (◌∷◌) (read_row-line p h.0) (read-rows peers h.1)

  -- For one peer and more, reading the table that `netso peers` prints gives the peers' names and keys
  -- back, in the hub's order, whatever the width that a name takes. Names are without spaces and line
  -- ends, and keys without line ends and with no space in front.
  pub read_table-listing :
      (network : Bytes) (p : Peer) (peers : List Peer)
      → All IsPlain (p ∷ peers)
      → read_table (listing runes quote network (p ∷ peers))
        ≡ map (λ q. (q.name, q.pubkey)) (p ∷ peers)
  read_table-listing network p peers h =
      let name = codes "NAME" in
      let key = codes "PUBKEY" in
      ap read_table (row_lem name key (rows runes quote (p ∷ peers)))
      ∙ ap (λ l. map read_row (drop 1 l))
          (lines-append (line name key) (rows runes quote (p ∷ peers)) (
            line-IsNot name key (refl, (refl, (refl, (refl, tt))))
              (refl, (refl, (refl, (refl, (refl, (refl, tt))))))))
      ∙ read-rows (p ∷ peers) h
