-- ===== src/Hub/Threads/Registering.antt =====
-- cmd/netso-hub/main.go: the steps of `handleAgent` keep the invariant.
use netso.Common.{
  ℕ, ◌==◌, ==_iff, ◌≡◌, ◌≢◌, refl, sym, ap, ◌∙◌, subst, false, none, some, get_elem?, set, arith,
  inl, inr, Bool-cases, Option-cases,
}
use netso.Common.Bytes.{Bytes}
use netso.Registry
use netso.Registry.{Record, Peer, Conn}
use netso.Registry.Lookup.{find}
use netso.Registry.Methods.{conn_of, add_prev, take_miss}
use netso.Audit.{Handle}
use netso.Hub.Threads.{Pc, State, move}
use netso.Hub.Threads.Roles.{
  Role, Roles, assign, assign_self, assign_other, Leaves-refl, Leaves-trans, IsTracked, IsValid,
}
use netso.Hub.Threads.Tracking.{closed-IsTracked, assign-IsTracked, take-IsTracked, put-IsTracked}
use netso.Hub.Threads.Held.{IsKept, goes-IsValid}
use netso.Hub.Threads.Leaving.{Leaves-my_agent, Leaves-waiting}

waiting_ne_agent : {i : ℕ} {a b c d : Bytes} → Role.waiting a b ≢ Role.agent i c d
waiting_ne_agent e = cc

module _ (i now : ℕ) (s : State) (role : Roles) (server : Handle → ℕ)
    (v : IsValid s role server) where
  registering_none :
      (network name pubkey : Bytes) (c : Conn)
      → get_elem? s.threads i ≡ some (Pc.registering network name pubkey c)
      → find network name s.reg ≡ none
      → IsKept (move i now (Pc.registering network name pubkey c) s)
  registering_none network name pubkey c at nobody =
      let pc = Pc.registering network name pubkey c in
      let peer : Peer = record { network = network; name = name; pubkey = pubkey } in
      let mine : role c ≡ Role.agent i network name = v.held i pc at in
      let prev : (Registry.add peer (some c) s.reg).1 ≡ none =
        add_prev peer (some c) s.reg ∙ ap conn_of nobody in
      (
        assign c (Role.waiting network name) role,
        server,
        goes-IsValid v (move i now pc s) i pc (Pc.replacing network name none) at
            (ap (λ q. set s.threads i (Pc.replacing network name q)) prev)
            (put-IsTracked i network name pubkey c v.tracked.reg
              (subst (λ r. IsTracked r s.closed s.next s.dialled role)
                (sym (ap (λ q. q.0) (take_miss network name s.reg nobody))) v.tracked)
              mine)
            v.audit
            (λ j differs.
              Leaves-my_agent i j role server s.audit.sessions c (Role.waiting network name) differs
                mine)
            tt (omega arith),
      )

  registering_some :
      (network name pubkey : Bytes) (c : Conn)
      → get_elem? s.threads i ≡ some (Pc.registering network name pubkey c)
      → (rec : Record) → find network name s.reg ≡ some rec
      → IsKept (move i now (Pc.registering network name pubkey c) s)
  registering_some network name pubkey c at rec found =
      let pc = Pc.registering network name pubkey c in
      let peer : Peer = record { network = network; name = name; pubkey = pubkey } in
      let mine : role c ≡ Role.agent i network name = v.held i pc at in
      let (p, there, waits) = v.tracked.registered network name rec found in
      let role₁ = assign p (Role.agent i network name) role in
      let prev : (Registry.add peer (some c) s.reg).1 ≡ some p =
        add_prev peer (some c) s.reg ∙ ap conn_of found ∙ there in
      let mine₁ : role₁ c ≡ Role.agent i network name =
        assign_other p c (Role.agent i network name) role (λ q. cc (waits, mine)) ∙ mine in
      let apart : (c == p) ≡ false = elim (Bool-cases (c == p)) [
        | inl same ↦
            absurd (waiting_ne_agent (sym waits ∙ ap role (sym ((==_iff c p).0 same)) ∙ mine))
        | inr other ↦ other
      ] in
      let held : assign c (Role.waiting network name) role₁ p ≡ Role.agent i network name =
        rw apart (assign_self p (Role.agent i network name) role) in
      (
        assign c (Role.waiting network name) role₁,
        server,
        goes-IsValid v (move i now pc s) i pc (Pc.replacing network name (some p)) at
            (ap (λ q. set s.threads i (Pc.replacing network name q)) prev)
            (put-IsTracked i network name pubkey c v.tracked.reg
              (take-IsTracked v.tracked i network name p waits) mine₁)
            v.audit
            (λ j differs.
              Leaves-trans j
                (Leaves-waiting j role server s.audit.sessions p (Role.agent i network name) waits)
                (Leaves-my_agent i j role₁ server s.audit.sessions c (Role.waiting network name)
                  differs mine₁))
            held (omega arith),
      )

  pub registering-IsKept :
      (network name pubkey : Bytes) (c : Conn)
      → get_elem? s.threads i ≡ some (Pc.registering network name pubkey c)
      → IsKept (move i now (Pc.registering network name pubkey c) s)
  registering-IsKept network name pubkey c at = elim (Option-cases (find network name s.reg)) [
    | inl nobody ↦ registering_none network name pubkey c at nobody
    | inr (rec, found) ↦ registering_some network name pubkey c at rec found
  ]

  pub replacing_none :
      (network name : Bytes)
      → get_elem? s.threads i ≡ some (Pc.replacing network name none)
      → IsKept (move i now (Pc.replacing network name none) s)
  replacing_none network name at = (
    role,
    server,
    goes-IsValid v (move i now (Pc.replacing network name none) s) i
        (Pc.replacing network name none) Pc.finished at refl v.tracked v.audit
        (λ j _. Leaves-refl j role server s.audit.sessions) tt (omega arith),
  )

  pub replacing_some :
      (network name : Bytes) (p : Conn)
      → get_elem? s.threads i ≡ some (Pc.replacing network name (some p))
      → IsKept (move i now (Pc.replacing network name (some p)) s)
  replacing_some network name p at =
      let pc = Pc.replacing network name (some p) in
      let mine : role p ≡ Role.agent i network name = v.held i pc at in
      (
        assign p Role.closed role,
        server,
        goes-IsValid v (move i now pc s) i pc Pc.finished at refl
            (closed-IsTracked
              (assign-IsTracked v.tracked p Role.closed (λ e. cc) (λ e. cc) tt (λ _ _ e. cc)) p
              (assign_self p Role.closed role))
            v.audit
            (λ j differs.
              Leaves-my_agent i j role server s.audit.sessions p Role.closed differs mine)
            tt (omega arith),
      )
