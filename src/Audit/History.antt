-- ===== src/Audit/History.antt =====
-- internal/audit/audit.go: which sessions the log retains, and what Recent returns.
use Prim.Native.Nat.{min}
use mathlib.Core.List.{reverse, append-nil, append_assoc, reverse-append, reverse-cons}
use netso.Common.{
  ℕ, zero, suc, ◌+◌, ◌-◌, ◌≤◌, ◌<◌, ltb, ◌≡◌, refl, ap, sym, ◌∙◌, Option, none, some, List, [], ◌∷◌,
  ◌++◌, length, take, get_elem?, if◌then◌else◌, length-append, length-set, arith, Bool-cases,
  Option-cases, inl, inr,
}
use netso.Common.Bytes.{Bytes}
use netso.Common.Int.{ℤ, pos, negsuc}
use netso.Audit.{Session, Log, Handle, new_log, start, end, trim, deref, copy_back, recent}

-- The numbers s, s + 1, …, n of them.
pub range_from : ℕ → ℕ → List ℕ
range_from s zero = []
range_from s (suc n) = s ∷ range_from (suc s) n

pub length-range_from : (s n : ℕ) → length (range_from s n) ≡ n
unfolding range_from
length-range_from s zero = refl
length-range_from s (suc n) = ap suc (length-range_from (suc s) n)

range_from-snoc : (s n : ℕ) → range_from s n ++ (s + n) ∷ [] ≡ range_from s (suc n)
unfolding range_from
range_from-snoc s zero = ground arith
range_from-snoc s (suc n) =
    let e : s + suc n ≡ suc s + n = omega arith in rw e (ap (◌∷◌ s) (range_from-snoc (suc s) n))

snoc_at : (s n m : ℕ) → s + n ≡ m → range_from s n ++ m ∷ [] ≡ range_from s (suc n)
snoc_at s n m h = rw (← h) (range_from-snoc s n)

get_elem?-range_from : (s n i : ℕ) → i < n → get_elem? (range_from s n) i ≡ some (s + i)
unfolding range_from
get_elem?-range_from s zero i h = absurd (omega arith)
get_elem?-range_from s (suc n) zero h = ground arith
get_elem?-range_from s (suc n) (suc i) h = ground (arith, get_elem?-range_from (suc s) n i)

-- The log retains the newest sessions, as many as fit: pointers to them in the order of starting.
pub record IsRetained (l : Log) : Type 0 where
  pub positive : 0 < l.max
  pub window :
      l.entries
      ≡ range_from
          (length l.sessions - min l.max (length l.sessions))
          (min l.max (length l.sessions))

empty_window : (max : ℕ) → [] ≡ range_from (0 - min max 0) (min max 0)
unfolding range_from
empty_window max = let e : min max 0 ≡ 0 = omega arith in rw e refl

pub new_log-IsRetained : (max : ℤ) → IsRetained (new_log max)
unfolding new_log
new_log-IsRetained (pos n) = record { positive = ground arith; window = empty_window _ }
new_log-IsRetained (negsuc n) = record { positive = ground arith; window = empty_window 1 }

trim_room : (max s n : ℕ) → n ≤ max → trim max (range_from s n) ≡ range_from s n
trim_room max s n h = ground (arith, length-range_from s n)

trim_full : (max s : ℕ) → trim max (range_from s (suc max)) ≡ range_from (suc s) max
unfolding range_from
trim_full max s =
    let e : length (range_from (suc s) max) ≡ max = length-range_from (suc s) max in
    let one : suc max - max ≡ 1 = omega arith in rw e (rw one (ground arith))

trim_window :
    (max n : ℕ)
    → 0 < max
    → trim max (range_from (n - min max n) (min max n) ++ n ∷ [])
      ≡ range_from (suc n - min max (suc n)) (min max (suc n))
trim_window max n h = elim (Bool-cases (ltb n max)) [
  | inl room ↦
      let e : min max n ≡ n = ground arith in
      let e' : min max (suc n) ≡ suc n = ground arith in
      let z : n - n ≡ 0 = omega arith in
      let z' : suc n - suc n ≡ 0 = omega arith in
      rw (e, e', z, z') (rw (snoc_at 0 n n (omega arith)) (trim_room max 0 (suc n) (ground arith)))
  | inr full ↦
      let e : min max n ≡ max = ground arith in
      let e' : min max (suc n) ≡ max = ground arith in
      let d : suc n - max ≡ suc (n - max) = ground arith in
      rw (e, e', d) (rw (snoc_at (n - max) max n (ground arith)) (trim_full max (n - max)))
]

pub start-IsRetained :
    (now : ℕ) (network peer : Bytes) (l : Log)
    → IsRetained l
    → IsRetained (start now network peer l).0
unfolding start
start-IsRetained now network peer l v = record {
  positive = v.positive;
  window =
      let e : length
            (l.sessions ++ record { network = network; peer = peer; started = now; ended = 0 } ∷ [])
          ≡ suc (length l.sessions) =
        omega (
          arith,
          length-append l.sessions
              (record { network = network; peer = peer; started = now; ended = 0 } ∷ []),
        ) in
      rw (e, v.window) (trim_window l.max (length l.sessions) v.positive);
}

-- `End` changes no pointer and allocates nothing.
pub end_frame :
    (now : ℕ) (h : Option Handle) (l : Log)
    → ((end now h l).max ≡ l.max)
      × ((end now h l).entries ≡ l.entries)
      × (length (end now h l).sessions ≡ length l.sessions)
unfolding end
end_frame now none l = (refl, refl, refl)
end_frame now (some h) l = elim (Option-cases (get_elem? l.sessions h)) [
  | inl e ↦ ground arith
  | inr (s, e) ↦ ground (arith, length-set l.sessions h (record s { ended = now }))
]

pub end-IsRetained :
    (now : ℕ) (h : Option Handle) (l : Log) → IsRetained l → IsRetained (end now h l)
end-IsRetained now h l v =
    let (same_max, same_entries, same_length) = end_frame now h l in
    record {
      positive = rw same_max v.positive;
      window = rw (same_max, same_entries, same_length) v.window;
    }

-- The sessions that were started before number `j`, newest first.
abbrev before : ℕ → List Session → List Session
before j sessions = reverse (take j sessions)

take-snoc {ℓ} :
    {A : Type ℓ} (l : List A) (j : ℕ) {x : A}
    → get_elem? l j ≡ some x
    → take (suc j) l ≡ take j l ++ x ∷ []
take-snoc [] j h = ground arith
take-snoc (y ∷ l) zero h = ground arith
take-snoc (y ∷ l) (suc j) h = ap (◌∷◌ y) (take-snoc l j h)

before-suc :
    (sessions : List Session) (j : ℕ) {s : Session}
    → get_elem? sessions j ≡ some s
    → before (suc j) sessions ≡ s ∷ before j sessions
before-suc sessions j {s} h =
    rw (take-snoc sessions j h) (reverse-append (take j sessions) (s ∷ []))

get_elem?_lt {ℓ} :
    {A : Type ℓ} (l : List A) (j : ℕ) → j < length l → (x : A) × (get_elem? l j ≡ some x)
get_elem?_lt [] j h = absurd (omega arith)
get_elem?_lt (x ∷ l) zero h = (x, refl)
get_elem?_lt (x ∷ l) (suc j) h = get_elem?_lt l j (omega arith)

module _ (l : Log) (s c n : ℕ) (window : l.entries ≡ range_from s c)
    (fits : s + c ≡ length l.sessions) where
  deref_window : (i : ℕ) → i < c → deref l i ≡ get_elem? l.sessions (s + i)
  deref_window i h = ground (arith, get_elem?-range_from s c i h)

  copy_back_lem :
      (i : ℕ) (out : List Session)
      → i ≤ c
      → copy_back i n l out
        ≡ some (out ++ take (min i (n - length out)) (before (s + i) l.sessions))
  unfolding copy_back
  copy_back_lem zero out h =
      let e : min 0 (n - length out) ≡ 0 = omega arith in rw e (ap some (sym (append-nil out)))
  copy_back_lem (suc i) out h = elim (Bool-cases (ltb (length out) n)) [
    | inr full ↦
        let e : min (suc i) (n - length out) ≡ 0 = ground arith in
        rw e (ground (arith, append-nil out))
    | inl more ↦
        let (x, at) = get_elem?_lt l.sessions (s + i) (omega arith) in
        let len : length (out ++ x ∷ []) ≡ suc (length out) =
          omega (arith, length-append out (x ∷ [])) in
        let m : min (suc i) (n - length out) ≡ suc (min i (n - suc (length out))) = ground arith in
        let j : s + suc i ≡ suc (s + i) = omega arith in
        let rest : copy_back i n l (out ++ x ∷ [])
            ≡ some (out ++ x ∷ take (min i (n - suc (length out))) (before (s + i) l.sessions)) =
          copy_back_lem i (out ++ x ∷ []) (omega arith) ∙ rw (len, append_assoc) refl in
        rw (m, j, before-suc l.sessions (s + i) at)
          (ground (arith, deref_window i (omega arith), rest))
  ]

length-reverse {ℓ} : {A : Type ℓ} (l : List A) → length (reverse l) ≡ length l
length-reverse [] = refl
length-reverse (x ∷ l) =
    rw reverse-cons (omega (arith, length-append (reverse l) (x ∷ []), length-reverse l))

take_all {ℓ} : {A : Type ℓ} (n : ℕ) (l : List A) → length l ≤ n → take n l ≡ l
take_all zero [] h = refl
take_all zero (x ∷ l) h = absurd (omega arith)
take_all (suc n) [] h = refl
take_all (suc n) (x ∷ l) h = ap (◌∷◌ x) (take_all n l (omega arith))

take-min {ℓ} : {A : Type ℓ} (n : ℕ) (l : List A) → take (min n (length l)) l ≡ take n l
take-min n l = elim (Bool-cases (ltb n (length l))) [
  | inl less ↦ let e : min n (length l) ≡ n = ground arith in rw e
  | inr more ↦
      let e : min n (length l) ≡ length l = ground arith in
      rw (e, take_all (length l) l (omega arith), take_all n l (ground arith))
]

-- `Recent(n)` returns the `n` newest sessions that were ever started, newest first, or as many as
-- the log retains, if that is less. It never indexes out of range.
pub recent_newest :
    (n : ℕ) (l : Log)
    → IsRetained l
    → recent (pos n) l ≡ some (take (min n l.max) (reverse l.sessions))
unfolding recent
recent_newest n l v =
    let size = length l.sessions in
    let c = min l.max size in
    let fits : size - c + c ≡ size = omega arith in
    let len : length l.entries ≡ c = rw v.window (length-range_from (size - c) c) in
    let n' = if ltb c n then c else n in
    let m : min c (n' - 0) ≡ min (min n l.max) (length (reverse l.sessions)) =
      ground (arith, length-reverse l.sessions) in
    let copied : copy_back c n' l []
        ≡ some (take (min c (n' - 0)) (before (size - c + c) l.sessions)) =
      copy_back_lem l (size - c) c n' v.window fits c [] (omega arith) in
    rw len (copied ∙ rw (m, fits, take_all size l.sessions (omega arith), take-min) refl)
