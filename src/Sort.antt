-- ===== src/Sort.antt =====
-- Go's `sort.Slice`, for a `less` that compares a string key. The library promises a permutation
-- without an inversion; for distinct keys that leaves one result, which insertion computes.
use mathlib.Core.List.{Perm, Permᴰ}
use mathlib.Core.List.Perm
use mathlib.Core.Logic.{∥∥₁_elim}
use mathlib.Core.Path.{subst₂}
use netso.Common.{
  ◌≡◌, refl, ◌∙◌, false, List, [], ◌∷◌, arith, if◌then◌else◌, inl, inr, Bool-cases, All,
}
use netso.Common.Bytes.{Bytes, str_eq, str_eq_iff, str_lt, str_lt_trans, str_lt_asymm, str_lt_total}

module _ {ℓ} {A : Type ℓ} (key : A → Bytes) where
  unfoldable pub insert : A → List A → List A
  insert x [] = x ∷ []
  insert x (y ∷ l) = if str_lt (key y) (key x) then y ∷ insert x l else x ∷ y ∷ l

  unfoldable pub sort_by : List A → List A
  unfolding insert
  sort_by [] = []
  sort_by (x ∷ l) = insert x (sort_by l)

  -- No later element is less than an earlier one.
  abbrev pub IsSorted : List A → Type 0
  IsSorted [] = Unit
  IsSorted (x ∷ l) = All (λ y. str_lt (key y) (key x) ≡ false) l × IsSorted l

  abbrev pub HasDistinctKeys : List A → Type 0
  HasDistinctKeys [] = Unit
  HasDistinctKeys (x ∷ l) = All (λ y. str_eq (key x) (key y) ≡ false) l × HasDistinctKeys l

  insert-perm : (x : A) (l : List A) → Perm (insert x l) (x ∷ l)
  unfolding insert
  insert-perm x [] = Perm.refl (x ∷ [])
  insert-perm x (y ∷ l) = elim (Bool-cases (str_lt (key y) (key x))) [
    | inl e ↦ rw e (Perm.trans (Perm.cons y (insert-perm x l)) (Perm.swap x y l))
    | inr e ↦ rw e (Perm.refl (x ∷ y ∷ l))
  ]

  pub sort_by-perm : (l : List A) → Perm (sort_by l) l
  unfolding sort_by
  sort_by-perm [] = Perm.refl []
  sort_by-perm (x ∷ l) = Perm.trans (insert-perm x (sort_by l)) (Perm.cons x (sort_by-perm l))

  insert_comm :
      (x y : A) (l : List A)
      → str_eq (key x) (key y) ≡ false
      → insert x (insert y l) ≡ insert y (insert x l)
  unfolding insert
  insert_comm x y [] h = ground (arith, str_lt_asymm (key x) (key y), str_lt_total (key x) (key y))
  insert_comm x y (z ∷ l) h = ground (
    arith,
    insert_comm x y l h,
    str_lt_asymm (key x) (key y),
    str_lt_total (key x) (key y),
    str_lt_trans (key z) (key y) (key x),
    str_lt_trans (key z) (key x) (key y),
    str_lt_total (key z) (key x),
    str_lt_total (key z) (key y),
    str_eq_iff (key z) (key x),
    str_eq_iff (key z) (key y),
    str_lt_trans (key y) (key z) (key x),
    str_lt_trans (key x) (key z) (key y),
  )

  pub All-insert : (P : A → Type 0) (x : A) (l : List A) → P x → All P l → All P (insert x l)
  unfolding insert
  All-insert P x [] px pl = (px, tt)
  All-insert P x (y ∷ l) px (py, pl) = elim (Bool-cases (str_lt (key y) (key x))) [
    | inl e ↦ rw e (py, All-insert P x l px pl)
    | inr e ↦ rw e (px, (py, pl))
  ]

  -- What is not less than `x` is not less than anything below `x`.
  All-not_lt :
      (x y : A) (l : List A)
      → str_lt (key y) (key x) ≡ false
      → All (λ z. str_lt (key z) (key y) ≡ false) l
      → All (λ z. str_lt (key z) (key x) ≡ false) l
  All-not_lt x y [] h k = tt
  All-not_lt x y (z ∷ l) h (hz, k) = (
    ground (
      arith,
      str_lt_trans (key z) (key x) (key y),
      str_lt_total (key x) (key y),
      str_lt_total (key y) (key x),
      str_eq_iff (key y) (key x),
    ),
    All-not_lt x y l h k,
  )

  insert-IsSorted : (x : A) (l : List A) → IsSorted l → IsSorted (insert x l)
  unfolding insert
  insert-IsSorted x [] h = (tt, tt)
  insert-IsSorted x (y ∷ l) (low, h) = elim (Bool-cases (str_lt (key y) (key x))) [
    | inl e ↦ rw e (
      All-insert (λ z. str_lt (key z) (key y) ≡ false) x l (str_lt_asymm (key y) (key x) e) low,
      insert-IsSorted x l h,
    )
    | inr e ↦ rw e ((e, All-not_lt x y l e low), (low, h))
  ]

  pub sort_by-IsSorted : (l : List A) → IsSorted (sort_by l)
  unfolding sort_by
  sort_by-IsSorted [] = tt
  sort_by-IsSorted (x ∷ l) = insert-IsSorted x (sort_by l) (sort_by-IsSorted l)

  insert_least :
      (x : A) (l : List A) → All (λ y. str_lt (key y) (key x) ≡ false) l → insert x l ≡ x ∷ l
  unfolding insert
  insert_least x [] h = refl
  insert_least x (y ∷ l) (h, _) = rw h

  pub sort_by_of_sorted : (l : List A) → IsSorted l → sort_by l ≡ l
  unfolding sort_by
  sort_by_of_sorted [] h = refl
  sort_by_of_sorted (x ∷ l) (low, h) = rw (sort_by_of_sorted l h) (insert_least x l low)

  str_eq_ne_sym : (x y : A) → str_eq (key x) (key y) ≡ false → str_eq (key y) (key x) ≡ false
  str_eq_ne_sym x y h = ground (arith, str_eq_iff (key x) (key y), str_eq_iff (key y) (key x))

  abbrev Apart : A → List A → Type 0
  Apart x = All (λ y. str_eq (key x) (key y) ≡ false)

  Apart-permᴰ : (x : A) {l l' : List A} → Permᴰ l l' → Apart x l → Apart x l'
  Apart-permᴰ x Permᴰ.nil h = tt
  Apart-permᴰ x (Permᴰ.cons e p) h = (rw (← e) h.0, Apart-permᴰ x p h.1)
  Apart-permᴰ x (Permᴰ.swap e f) h = (rw (← f) h.1.0, (rw (← e) h.0, h.1.1))
  Apart-permᴰ x (Permᴰ.trans p q) h = Apart-permᴰ x q (Apart-permᴰ x p h)

  HasDistinctKeys-swap :
      (a b : A) (l : List A) → HasDistinctKeys (a ∷ b ∷ l) → HasDistinctKeys (b ∷ a ∷ l)
  HasDistinctKeys-swap a b l h = ((str_eq_ne_sym a b h.0.0, h.1.0), (h.0.1, h.1.1))

  HasDistinctKeys-permᴰ : {l l' : List A} → Permᴰ l l' → HasDistinctKeys l → HasDistinctKeys l'
  HasDistinctKeys-permᴰ Permᴰ.nil h = tt
  HasDistinctKeys-permᴰ (Permᴰ.cons e p) h =
      (rw (← e) (Apart-permᴰ _ p h.0), HasDistinctKeys-permᴰ p h.1)
  HasDistinctKeys-permᴰ (Permᴰ.swap {a} {b} {a'} {b'} {l} e f) h =
      subst₂ (λ x y. HasDistinctKeys (x ∷ y ∷ l)) f e (HasDistinctKeys-swap a b l h)
  HasDistinctKeys-permᴰ (Permᴰ.trans p q) h = HasDistinctKeys-permᴰ q (HasDistinctKeys-permᴰ p h)

  sort_by-permᴰ : {l l' : List A} → Permᴰ l l' → HasDistinctKeys l → sort_by l ≡ sort_by l'
  unfolding sort_by
  sort_by-permᴰ Permᴰ.nil h = refl
  sort_by-permᴰ (Permᴰ.cons e p) h = rw (e, sort_by-permᴰ p h.1)
  sort_by-permᴰ (Permᴰ.swap {a} {b} {l} e f) h = rw (← e, ← f) (insert_comm a b (sort_by l) h.0.0)
  sort_by-permᴰ (Permᴰ.trans p q) h =
      sort_by-permᴰ p h ∙ sort_by-permᴰ q (HasDistinctKeys-permᴰ p h)

  -- Any order of the same elements sorts to the same list, if no key stands twice.
  pub sort_by-perm_eq :
      IsSet A → {l l' : List A} → Perm l l' → HasDistinctKeys l → sort_by l ≡ sort_by l'
  sort_by-perm_eq is_set {l} {l'} p h = ∥∥₁_elim p (hlevel is_set) (λ q. sort_by-permᴰ q h)
