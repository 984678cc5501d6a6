-- ===== src/Digits.antt =====
-- Numbers in a base, least digit first: what the byte strings of `math/big` and of base 58 stand
-- for. The recursion on a number goes by fuel; the number itself is always enough.
use native.Mathlib.Nat.{
  div-lt_self, div-add-mod, add-mul-mod_self_left, add-mul-div_left, mod-eq_of_lt, div-eq_of_lt,
  mod-lt, mul-le-mul_right,
}
use netso.Common.{
  ℕ, zero, suc, ◌+◌, ◌*◌, ◌/◌, ◌%◌, ◌≤◌, ◌<◌, ◌==◌, ◌≡◌, refl, ap, true, false, List, [], ◌∷◌, ◌++◌,
  All, arith, inl, inr, Bool-cases,
}

module _ (base : ℕ) where
  unfoldable pub of_digits : List ℕ → ℕ
  of_digits [] = 0
  of_digits (d ∷ ds) = d + base * of_digits ds

  unfoldable pub to_digits : ℕ → ℕ → List ℕ
  to_digits zero x = []
  to_digits (suc f) x = elim (x == 0) [ true ↦ [] | false ↦ x % base ∷ to_digits f (x / base) ]

  pub to_digits_pos : (f x : ℕ) → 0 < x → to_digits (suc f) x ≡ x % base ∷ to_digits f (x / base)
  unfolding to_digits
  to_digits_pos f x h = ground arith

  pub to_digits_zero : (f : ℕ) → to_digits f 0 ≡ []
  unfolding to_digits
  to_digits_zero zero = refl
  to_digits_zero (suc f) = refl

  -- No digit stands above the last one that counts.
  abbrev pub IsProper : List ℕ → Type 0
  IsProper [] = Unit
  IsProper (d ∷ ds) = (0 < d + of_digits ds) × IsProper ds

  module _ (two : 2 ≤ base) where
    quotient_lt : (x : ℕ) → 0 < x → x / base < x
    quotient_lt x p = div-lt_self p two

    twice_le : (y : ℕ) → 2 * y ≤ base * y
    twice_le y = mul-le-mul_right y two

    pub of_digits-to_digits : (f x : ℕ) → x ≤ f → of_digits (to_digits f x) ≡ x
    unfolding of_digits
    of_digits-to_digits zero x h = let z : x ≡ 0 = omega arith in rw (z, to_digits_zero) refl
    of_digits-to_digits (suc f) x h = elim (Bool-cases (x == 0)) [
      | inl e ↦ let z : x ≡ 0 = ground arith in rw (z, to_digits_zero) refl
      | inr e ↦
          let p : 0 < x = ground arith in
          let back = of_digits-to_digits f (x / base) (omega (arith, quotient_lt x p)) in
          rw (to_digits_pos f x p, back) (omega (arith, div-add-mod x base))
    ]

    pub to_digits-of_digits :
        (ds : List ℕ) (f : ℕ)
        → All (λ d. d < base) ds
        → IsProper ds
        → of_digits ds ≤ f
        → to_digits f (of_digits ds) ≡ ds
    unfolding of_digits
    to_digits-of_digits [] f a p h = to_digits_zero f
    to_digits-of_digits (d ∷ ds) zero a p h = absurd (omega (arith, p.0, twice_le (of_digits ds)))
    to_digits-of_digits (d ∷ ds) (suc f) a p h =
        let y = of_digits ds in
        let m : (d + base * y) % base ≡ d = rw add-mul-mod_self_left (mod-eq_of_lt a.0) in
        let q : (d + base * y) / base ≡ y =
          rw (add-mul-div_left d y {y = base} (omega arith), div-eq_of_lt a.0) (omega arith) in
        let positive : 0 < d + base * y = omega (arith, p.0, twice_le y) in
        let le : y ≤ f = omega (arith, twice_le y) in
        rw (to_digits_pos f (d + base * y) positive, m, q, to_digits-of_digits ds f a.1 p.1 le)

    pub to_digits-bound : (f x : ℕ) → All (λ d. d < base) (to_digits f x)
    to_digits-bound zero x = unfold to_digits in tt
    to_digits-bound (suc f) x = elim (Bool-cases (x == 0)) [
      | inl e ↦ let z : x ≡ 0 = ground arith in rw (z, to_digits_zero) tt
      | inr e ↦
          rw (to_digits_pos f x (ground arith))
            (mod-lt x (omega arith), to_digits-bound f (x / base))
    ]

    -- The last digit of a positive number is not zero.
    pub to_digits_last :
        (f x : ℕ)
        → x ≤ f
        → 0 < x
        → (l : List ℕ) × (a : ℕ) × (to_digits f x ≡ l ++ a ∷ []) × (0 < a) × (a < base)
    to_digits_last zero x h p = absurd (omega arith)
    to_digits_last (suc f) x h p = elim (Bool-cases (x / base == 0)) [
      | inl e ↦
          let q : x / base ≡ 0 = ground arith in
          let m : 0 < x % base = omega (arith, ap (λ k. base * k) q, div-add-mod x base) in
          (
            [],
            x % base,
            rw (to_digits_pos f x p, q, to_digits_zero) refl,
            m,
            mod-lt x (omega arith),
          )
      | inr e ↦
          let (l, a, split, positive, lt) =
            to_digits_last f (x / base) (omega (arith, quotient_lt x p)) (ground arith) in
          (x % base ∷ l, a, rw (to_digits_pos f x p, split) refl, positive, lt)
    ]

    of_digits-snoc_pos : (l : List ℕ) (a : ℕ) → 0 < a → 0 < of_digits (l ++ a ∷ [])
    unfolding of_digits
    of_digits-snoc_pos [] a h = omega arith
    of_digits-snoc_pos (d ∷ l) a h =
        omega (arith, of_digits-snoc_pos l a h, twice_le (of_digits (l ++ a ∷ [])))

    pub IsProper-snoc : (l : List ℕ) (a : ℕ) → 0 < a → IsProper (l ++ a ∷ [])
    unfolding of_digits
    IsProper-snoc [] a h = (omega arith, tt)
    IsProper-snoc (d ∷ l) a h =
        let p = of_digits-snoc_pos l a h in (omega arith, IsProper-snoc l a h)
