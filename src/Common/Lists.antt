-- ===== src/Common/Lists.antt =====
-- Lists measured by native numbers, under the library's names, and predicates by recursion.
use Prim.Native.Nat.{ℕ, zero, suc, ◌+◌, ◌-◌, ◌<◌, min}
use mathlib.Core.Logic.{◌⊎◌, inl, inr}
use mathlib.Core.Path.{◌≡◌, refl, ap, subst}
use mathlib.Core.List.{List, [], ◌∷◌, ◌++◌}
use mathlib.Core.Option.{Option, none, some, some-injective}
use native.Mathlib.Omega.{arith}

module _ {ℓ} {A : Type ℓ} where
  abbrev pub length : List A → ℕ
  length [] = 0
  length (x ∷ xs) = suc (length xs)

  abbrev pub take : ℕ → List A → List A
  take zero xs = []
  take (suc n) [] = []
  take (suc n) (x ∷ xs) = x ∷ take n xs

  abbrev pub drop : ℕ → List A → List A
  drop zero xs = xs
  drop (suc n) [] = []
  drop (suc n) (x ∷ xs) = drop n xs

  abbrev pub get_elem? : List A → ℕ → Option A
  get_elem? [] i = none
  get_elem? (x ∷ xs) zero = some x
  get_elem? (x ∷ xs) (suc i) = get_elem? xs i

  -- A write out of bounds changes nothing.
  abbrev pub set : List A → ℕ → A → List A
  set [] i v = []
  set (x ∷ xs) zero v = v ∷ xs
  set (x ∷ xs) (suc i) v = x ∷ set xs i v

  abbrev pub get_or : List A → ℕ → A → A
  get_or [] i d = d
  get_or (x ∷ xs) zero d = x
  get_or (x ∷ xs) (suc i) d = get_or xs i d

  abbrev pub replicate : ℕ → A → List A
  replicate zero a = []
  replicate (suc n) a = a ∷ replicate n a

  pub length-append : (xs ys : List A) → length (xs ++ ys) ≡ length xs + length ys
  length-append [] ys = omega arith
  length-append (x ∷ xs) ys = omega (arith, length-append xs ys)

  pub length-drop : (n : ℕ) (xs : List A) → length (drop n xs) ≡ length xs - n
  length-drop zero xs = omega arith
  length-drop (suc n) [] = omega arith
  length-drop (suc n) (x ∷ xs) = omega (arith, length-drop n xs)

  pub length-take : (n : ℕ) (xs : List A) → length (take n xs) ≡ min n (length xs)
  length-take zero xs = omega arith
  length-take (suc n) [] = omega arith
  length-take (suc n) (x ∷ xs) = omega (arith, length-take n xs)

  pub length-set : (xs : List A) (i : ℕ) (v : A) → length (set xs i v) ≡ length xs
  length-set [] i v = refl
  length-set (x ∷ xs) zero v = refl
  length-set (x ∷ xs) (suc i) v = ap suc (length-set xs i v)

module _ {ℓ} {A : Type ℓ} where
  pub get_elem?-append :
      (l m : List A) (i : ℕ) {x : A} → get_elem? l i ≡ some x → get_elem? (l ++ m) i ≡ some x
  get_elem?-append [] m i h = ground arith
  get_elem?-append (y ∷ l) m zero h = h
  get_elem?-append (y ∷ l) m (suc i) h = get_elem?-append l m i h

  pub get_elem?-last : (l : List A) (x : A) → get_elem? (l ++ x ∷ []) (length l) ≡ some x
  get_elem?-last [] x = refl
  get_elem?-last (y ∷ l) x = get_elem?-last l x

  pub get_elem?-lt : (l : List A) (i : ℕ) {x : A} → get_elem? l i ≡ some x → i < length l
  get_elem?-lt [] i h = ground arith
  get_elem?-lt (y ∷ l) zero h = omega arith
  get_elem?-lt (y ∷ l) (suc i) h = omega (arith, get_elem?-lt l i h)

  pub get_elem?-set_other :
      (l : List A) (i j : ℕ) (v : A) → ¬ (i ≡ j) → get_elem? (set l i v) j ≡ get_elem? l j
  get_elem?-set_other [] i j v h = refl
  get_elem?-set_other (x ∷ l) zero zero v h = absurd (h refl)
  get_elem?-set_other (x ∷ l) zero (suc j) v h = refl
  get_elem?-set_other (x ∷ l) (suc i) zero v h = refl
  get_elem?-set_other (x ∷ l) (suc i) (suc j) v h = get_elem?-set_other l i j v (λ e. h (ap suc e))

pub get_elem?-set_hit {ℓ} :
    {A : Type ℓ} (l : List A) (h : ℕ) (v : A) {u : A}
    → get_elem? l h ≡ some u
    → get_elem? (set l h v) h ≡ some v
get_elem?-set_hit [] h v e = ground arith
get_elem?-set_hit (x ∷ l) zero v e = refl
get_elem?-set_hit (x ∷ l) (suc h) v e = get_elem?-set_hit l h v e

pub get_elem?-snoc {ℓ} :
    {A : Type ℓ} (l : List A) (x : A) (i : ℕ) {y : A}
    → get_elem? (l ++ x ∷ []) i ≡ some y
    → (get_elem? l i ≡ some y) ⊎ ((i ≡ length l) × (x ≡ y))
get_elem?-snoc [] x zero {y} e = inr (refl, some-injective x y e)
get_elem?-snoc [] x (suc i) e = ground arith
get_elem?-snoc (z ∷ l) x zero e = inl e
get_elem?-snoc (z ∷ l) x (suc i) e = elim (get_elem?-snoc l x i e) [
  | inl before ↦ inl before
  | inr (last, same) ↦ inr (ap suc last, same)
]

-- A write of what is there changes nothing.
pub set_same {ℓ} :
    {A : Type ℓ} (l : List A) (i : ℕ) {x : A} → get_elem? l i ≡ some x → l ≡ set l i x
set_same [] i e = refl
set_same (y ∷ l) zero {x} e = ap (λ z. z ∷ l) (some-injective y x e)
set_same (y ∷ l) (suc i) e = ap (◌∷◌ y) (set_same l i e)

-- A predicate by recursion computes to tuples, which the tactics read and build.
abbrev pub All {ℓ κ} : {A : Type ℓ} → (A → Type κ) → List A → Type κ
All P [] = Unit
All P (first ∷ rest) = P first × All P rest

pub All-map {ℓ κ μ} :
    {A : Type ℓ} {P : A → Type κ} {Q : A → Type μ}
    → ((x : A) → P x → Q x)
    → (l : List A) → All P l
    → All Q l
All-map f [] h = tt
All-map f (x ∷ l) h = (f x h.0, All-map f l h.1)

pub All-append {ℓ κ} :
    {A : Type ℓ} (P : A → Type κ) (front back : List A)
    → All P front
    → All P back
    → All P (front ++ back)
All-append P [] back none_left all_back = all_back
All-append P (first ∷ rest) back all_front all_back =
    let (here, there) = all_front in (here, All-append P rest back there all_back)

pub All-get_elem? {ℓ κ} :
    {A : Type ℓ} (P : A → Type κ) (l : List A) (i : ℕ) {x : A}
    → All P l
    → get_elem? l i ≡ some x
    → P x
All-get_elem? P [] i h e = absurd (ground arith)
All-get_elem? P (y ∷ l) zero {x} h e = subst P (some-injective y x e) h.0
All-get_elem? P (y ∷ l) (suc i) h e = All-get_elem? P l i h.1 e

pub append-[] {ℓ} : {A : Type ℓ} (l : List A) → l ++ [] ≡ l
append-[] [] = refl
append-[] (a ∷ l) = ap (◌∷◌ a) (append-[] l)

pub append_assoc {ℓ} : {A : Type ℓ} (k l m : List A) → (k ++ l) ++ m ≡ k ++ (l ++ m)
append_assoc [] l m = refl
append_assoc (x ∷ k) l m = ap (◌∷◌ x) (append_assoc k l m)

pub All-of {ℓ κ} :
    {A : Type ℓ} (P : A → Type κ) (l : List A)
    → ((i : ℕ) (x : A) → get_elem? l i ≡ some x → P x)
    → All P l
All-of P [] f = tt
All-of P (x ∷ l) f = (f 0 x refl, All-of P l (λ i. f (suc i)))

-- A relation of each element to all that come after it.
abbrev pub AllPairs {ℓ κ} : {A : Type ℓ} → (A → A → Type κ) → List A → Type κ
AllPairs R [] = Unit
AllPairs R (x ∷ l) = All (R x) l × AllPairs R l

pub AllPairs-of {ℓ κ} :
    {A : Type ℓ} (R : A → A → Type κ) (l : List A)
    → ((i j : ℕ) (x y : A) → ¬ (i ≡ j) → get_elem? l i ≡ some x → get_elem? l j ≡ some y → R x y)
    → AllPairs R l
AllPairs-of R [] f = tt
AllPairs-of R (x ∷ l) f = (
  All-of (R x) l (λ j y at. f 0 (suc j) x y (λ e. absurd (omega arith)) refl at),
  AllPairs-of R l (λ i j a b differs. f (suc i) (suc j) a b (λ e. differs (omega arith))),
)
