-- ===== src/Map.antt =====
-- Go's `map[string]V`: an association list in which a key stands at most once. The language leaves
-- the order of a `range` open; a theorem about such a loop holds for every order of the list.
use netso.Common.{
  ◌+◌, ◌≡◌, refl, ◌≢◌, Option, none, some, List, [], ◌∷◌, length, arith, if◌then◌else◌, inl, inr,
  Bool-cases,
}
use netso.Common.Bytes.{Bytes, str_eq, str_eq_iff, str_eq_sound, str_eq_refl}

abbrev pub Map {ℓ} : Type ℓ → Type ℓ
Map V = List (Bytes × V)

module _ {ℓ} {V : Type ℓ} where
  -- `v, ok := m[k]`
  unfoldable pub get : Bytes → Map V → Option V
  get k [] = none
  get k ((j, v) ∷ m) = if str_eq j k then some v else get k m

  -- `m[k] = v`
  unfoldable pub put : Bytes → V → Map V → Map V
  put k v [] = (k, v) ∷ []
  put k v ((j, w) ∷ m) = if str_eq j k then (k, v) ∷ m else (j, w) ∷ put k v m

  -- `delete(m, k)`
  unfoldable pub delete : Bytes → Map V → Map V
  delete k [] = []
  delete k ((j, w) ∷ m) = if str_eq j k then m else (j, w) ∷ delete k m

  -- No key stands twice.
  abbrev pub IsMap : Map V → Type ℓ
  IsMap [] = Unit
  IsMap ((k, v) ∷ m) = (get k m ≡ none) × IsMap m

  pub get-put :
      (k j : Bytes) (v : V) (m : Map V)
      → get j (put k v m) ≡ (if str_eq k j then some v else get j m)
  unfolding get put
  get-put k j v [] = refl
  get-put k j v ((i, w) ∷ m) =
      ground (arith, str_eq_iff k j, str_eq_iff i k, str_eq_iff i j, get-put k j v m)

  pub get-delete :
      (k j : Bytes) (m : Map V)
      → IsMap m
      → get j (delete k m) ≡ (if str_eq k j then none else get j m)
  unfolding get delete
  get-delete k j [] h = ground arith
  get-delete k j ((i, w) ∷ m) h =
      ground (arith, str_eq_iff k j, str_eq_iff i k, str_eq_iff i j, get-delete k j m h.1)

  pub put-IsMap : (k : Bytes) (v : V) (m : Map V) → IsMap m → IsMap (put k v m)
  unfolding get put
  put-IsMap k v [] h = (refl, tt)
  put-IsMap k v ((i, w) ∷ m) h = elim (Bool-cases (str_eq i k)) [
    | inl e ↦ rw e (rw (← str_eq_sound i k e) h.0, h.1)
    | inr e ↦
        rw e (ground (arith, get-put k i v m, str_eq_iff k i, str_eq_iff i k), put-IsMap k v m h.1)
  ]

  pub delete-IsMap : (k : Bytes) (m : Map V) → IsMap m → IsMap (delete k m)
  unfolding get delete
  delete-IsMap k [] h = tt
  delete-IsMap k ((i, w) ∷ m) h = elim (Bool-cases (str_eq i k)) [
    | inl e ↦ rw e h.1
    | inr e ↦ rw e (ground (arith, get-delete k i m h.1), delete-IsMap k m h.1)
  ]

  -- `len(m)`, before and after a write or a removal.
  pub length-put :
      (k : Bytes) (v : V) (m : Map V)
      → length (put k v m) ≡ (elim (get k m) [ none ↦ length m + 1 | some _ ↦ length m ])
  unfolding get put
  length-put k v [] = omega arith
  length-put k v ((i, w) ∷ m) = ground (arith, length-put k v m)

  pub length-delete :
      (k : Bytes) (m : Map V) (v : V) → get k m ≡ some v → length (delete k m) + 1 ≡ length m
  unfolding get delete
  length-delete k [] v h = cc
  length-delete k ((i, w) ∷ m) v h = ground (arith, length-delete k m v)

  pub put-ne-nil : (k : Bytes) (v : V) (m : Map V) → put k v m ≢ []
  unfolding put
  put-ne-nil k v [] = ground arith
  put-ne-nil k v ((i, w) ∷ m) = ground arith

  -- A map in which no key is found is the empty one.
  pub get-ne-none : (m : Map V) → m ≢ [] → (k : Bytes) × (v : V) × (get k m ≡ some v)
  unfolding get
  get-ne-none [] h = absurd (h refl)
  get-ne-none ((k, v) ∷ m) h = (k, v, rw (str_eq_refl k))
