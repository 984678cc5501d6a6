-- ===== src/Hub/Threads/Held.antt =====
-- cmd/netso-hub/main.go: the goroutines and their sessions when one goroutine goes on.
use netso.Common.{
  get_elem?-set_hit, get_elem?-snoc, ℕ, zero, suc, ◌+◌, ◌==◌, ==_iff, ◌≡◌, ◌≢◌, sym, ap, ◌∙◌, subst,
  some, List, [], ◌∷◌, ◌++◌, length, get_elem?, set, arith, inl, inr, Bool-cases,
  get_elem?-set_other,
}
use mathlib.Core.Option.{some-injective}
use netso.Audit
use netso.Audit.{Session, Log, Handle}
use netso.Audit.Count.{end_once, start-IsValid, end-IsValid}
use netso.Hub.Threads.{Pc, State}
use netso.Hub.Threads.Roles.{
  Roles, Holds, Leaves, Holds-Leaves, serves, serving, IsTracked, IsValid,
}

serving-set :
    (l : List Pc) (i : ℕ) (pc pc' : Pc)
    → get_elem? l i ≡ some pc
    → serving (set l i pc') + serves pc ≡ serving l + serves pc'
serving-set [] i pc pc' at = ground arith
serving-set (x ∷ l) zero pc pc' at =
    let e : serves x ≡ serves pc = ap serves (some-injective x pc at) in omega (arith, e)
serving-set (x ∷ l) (suc i) pc pc' at = omega (arith, serving-set l i pc pc' at)

serving-snoc : (l : List Pc) (pc : Pc) → serving (l ++ pc ∷ []) ≡ serving l + serves pc
serving-snoc [] pc = omega arith
serving-snoc (x ∷ l) pc = omega (arith, serving-snoc l pc)

module _ {s : State} {role role' : Roles} {server server' : Handle → ℕ}
    (v : IsValid s role server) where
  -- The i-th goroutine goes on to a point that does not change what the others hold.
  pub goes-IsValid :
      (s' : State) (i : ℕ) (pc pc' : Pc)
      → get_elem? s.threads i ≡ some pc
      → s'.threads ≡ set s.threads i pc'
      → IsTracked s'.reg s'.closed s'.next s'.dialled role'
      → Audit.Count.IsValid s'.audit
      → ((j : ℕ) → i ≢ j → Leaves j role role' server server' s.audit.sessions s'.audit.sessions)
      → Holds role' server' s'.audit.sessions i pc'
      → s'.audit.active + serves pc ≡ s.audit.active + serves pc'
      → IsValid s' role' server'
  goes-IsValid s' i pc pc' at e tracked audit leaves holds count = record {
    tracked = tracked;
    audit = audit;
    held = λ j pcj at'.
        let at'' : get_elem? (set s.threads i pc') j ≡ some pcj =
          ap (λ l. get_elem? l j) (sym e) ∙ at' in
        elim (Bool-cases (i == j)) [
          | inl same ↦
              let i_j = (==_iff i j).0 same in
              let hit : some pc' ≡ some pcj =
                sym (get_elem?-set_hit s.threads i pc' at)
                ∙ ap (get_elem? (set s.threads i pc')) i_j
                ∙ at'' in
              subst (λ k. Holds role' server' s'.audit.sessions k pcj) i_j
                (subst (Holds role' server' s'.audit.sessions i) (some-injective pc' pcj hit) holds)
          | inr other ↦
              let differs : i ≢ j = λ q. ground arith in
              Holds-Leaves j role role' server server' s.audit.sessions s'.audit.sessions pcj
                (leaves j differs)
                (v.held j pcj (sym (get_elem?-set_other s.threads i j pc' differs) ∙ at''))
        ];
    counted = omega (arith, serving-set s.threads i pc pc' at, v.counted, count, ap serving e);
  }

  -- A new goroutine.
  pub spawned-IsValid :
      (s' : State) (pc : Pc)
      → s'.threads ≡ s.threads ++ pc ∷ []
      → s'.audit ≡ s.audit
      → IsTracked s'.reg s'.closed s'.next s'.dialled role'
      → ((j : ℕ) → Leaves j role role' server server' s.audit.sessions s.audit.sessions)
      → Holds role' server' s.audit.sessions (length s.threads) pc
      → serves pc ≡ 0
      → IsValid s' role' server'
  spawned-IsValid s' pc e same tracked leaves holds none_served = record {
    tracked = tracked;
    audit = subst Audit.Count.IsValid (sym same) v.audit;
    held = λ j pcj at.
        subst (λ l. Holds role' server' l j pcj) (ap (λ l. l.sessions) (sym same))
          (elim (get_elem?-snoc s.threads pc j (ap (λ l. get_elem? l j) (sym e) ∙ at)) [
            | inl before ↦
                Holds-Leaves j role role' server server' s.audit.sessions s.audit.sessions pcj
                  (leaves j) (v.held j pcj before)
            | inr (last, here) ↦
                subst (λ k. Holds role' server' s.audit.sessions k pcj) (sym last)
                  (subst (Holds role' server' s.audit.sessions (length s.threads)) here holds)
          ]);
    counted = omega (
      arith,
      serving-snoc s.threads pc,
      v.counted,
      none_served,
      ap serving e,
      ap (λ l. l.active) same,
    );
  }

-- The invariant holds with the connections in some roles.
abbrev pub IsKept : State → Type 0
IsKept s = (role : Roles) × (server : Handle → ℕ) × IsValid s role server
