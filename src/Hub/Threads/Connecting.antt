-- ===== src/Hub/Threads/Connecting.antt =====
-- cmd/netso-hub/main.go: the steps of `handleConnect` keep the invariant.
use mathlib.Core.Option
use netso.Common.{
  ℕ, ◌==◌, ◌≡◌, ◌≢◌, refl, sym, ap, ◌∙◌, subst, true, none, some, length, get_elem?, set, arith,
  inl, inr, Option-cases, get_elem?-last,
}
use netso.Common.Bytes.{Bytes}
use netso.Registry
use netso.Registry.{Record, Peer, Conn}
use netso.Registry.Lookup.{find}
use netso.Registry.Methods.{take_result, take_miss}
use netso.Audit
use netso.Audit.{Session, Log, Handle, is_active}
use netso.Audit.Count.{start-IsValid, end-IsValid, end_once}
use netso.Hub.Threads.{Pc, State, move, after_take}
use netso.Hub.Threads.Roles.{
  Role, Roles, assign, assign_self, assign_other, Leaves, Leaves-refl, IsTracked, IsValid,
}
use netso.Hub.Threads.Tracking.{closed-IsTracked, assign-IsTracked, take-IsTracked}
use netso.Hub.Threads.Held.{IsKept, goes-IsValid}
use netso.Hub.Threads.Leaving.{
  serve, Leaves-start, Leaves-end, Leaves-mine, Leaves-my_agent, Leaves-waiting,
}

module _ (i now : ℕ) (s : State) (role : Roles) (server : Handle → ℕ)
    (v : IsValid s role server) where
  pub rejecting-IsKept :
      (c : Conn)
      → get_elem? s.threads i ≡ some (Pc.rejecting c)
      → IsKept (move i now (Pc.rejecting c) s)
  rejecting-IsKept c at =
      let mine : role c ≡ Role.client i = v.held i (Pc.rejecting c) at in
      (
        assign c Role.closed role,
        server,
        goes-IsValid v (move i now (Pc.rejecting c) s) i (Pc.rejecting c) Pc.finished at refl
            (closed-IsTracked
              (assign-IsTracked v.tracked c Role.closed (λ e. cc) (λ e. cc) tt (λ _ _ e. cc)) c
              (assign_self c Role.closed role))
            v.audit
            (λ j differs. Leaves-mine i j role server s.audit.sessions c Role.closed differs mine)
            tt (omega arith),
      )

  looking_none :
      (network name : Bytes) (c : Conn)
      → get_elem? s.threads i ≡ some (Pc.looking network name c)
      → find network name s.reg ≡ none
      → IsKept (move i now (Pc.looking network name c) s)
  looking_none network name c at nobody =
      let pc = Pc.looking network name c in
      let missed = take_miss network name s.reg nobody in
      (
        role,
        server,
        goes-IsValid v (move i now pc s) i pc (Pc.rejecting c) at
            (ap (λ q. set s.threads i (after_take network name c q.1)) missed)
            (subst (λ r. IsTracked r s.closed s.next s.dialled role) (sym (ap (λ q. q.0) missed))
              v.tracked)
            v.audit (λ j _. Leaves-refl j role server s.audit.sessions) (v.held i pc at)
            (omega arith),
      )

  looking_some :
      (network name : Bytes) (c : Conn)
      → get_elem? s.threads i ≡ some (Pc.looking network name c)
      → (rec : Record) → find network name s.reg ≡ some rec
      → IsKept (move i now (Pc.looking network name c) s)
  looking_some network name c at rec found =
      let pc = Pc.looking network name c in
      let mine : role c ≡ Role.client i = v.held i pc at in
      let (a, there, waits) = v.tracked.registered network name rec found in
      let taken : (Registry.take network name s.reg).1 ≡ some (rec.peer, some a) =
        take_result network name s.reg
        ∙ ap (Option.map (λ r. (r.peer, r.conn))) found
        ∙ ap (λ q. some (rec.peer, q)) there in
      (
        assign a (Role.agent i network name) role,
        server,
        goes-IsValid v (move i now pc s) i pc (Pc.starting network name c a) at
            (ap (λ q. set s.threads i (after_take network name c q)) taken)
            (take-IsTracked v.tracked i network name a waits) v.audit
            (λ j differs.
              Leaves-waiting j role server s.audit.sessions a (Role.agent i network name) waits)
            (
              assign_other a c (Role.agent i network name) role (λ q. cc (waits, mine)) ∙ mine,
              assign_self a (Role.agent i network name) role,
            )
            (omega arith),
      )

  pub looking-IsKept :
      (network name : Bytes) (c : Conn)
      → get_elem? s.threads i ≡ some (Pc.looking network name c)
      → IsKept (move i now (Pc.looking network name c) s)
  looking-IsKept network name c at = elim (Option-cases (find network name s.reg)) [
    | inl nobody ↦ looking_none network name c at nobody
    | inr (rec, found) ↦ looking_some network name c at rec found
  ]

  pub starting-IsKept :
      (network name : Bytes) (c a : Conn)
      → get_elem? s.threads i ≡ some (Pc.starting network name c a)
      → IsKept (move i now (Pc.starting network name c a) s)
  unfolding Audit.start is_active
  starting-IsKept network name c a at =
      let pc = Pc.starting network name c a in
      let h = length s.audit.sessions in
      let new : Session = record { network = network; peer = name; started = now; ended = 0 } in
      let mine = v.held i pc at in
      let same : (h == h) ≡ true = ground arith in
      (
        role,
        serve h i server,
        goes-IsValid v (move i now pc s) i pc (Pc.relaying network name c a h) at refl v.tracked
            (start-IsValid now network name s.audit v.audit)
            (λ j _. Leaves-start j role server s.audit.sessions i new)
            (
              mine.0,
              mine.1,
              (
                rw same refl,
                record {
                  session = new;
                  stored = get_elem?-last s.audit.sessions new;
                  active = refl;
                },
              ),
            )
            (omega arith),
      )

  pub relaying-IsKept :
      (network name : Bytes) (c a : Conn) (h : Handle)
      → get_elem? s.threads i ≡ some (Pc.relaying network name c a h)
      → IsKept (move i now (Pc.relaying network name c a h) s)
  relaying-IsKept network name c a h at =
      let pc = Pc.relaying network name c a h in
      let (mine, my_agent, serves) = v.held i pc at in
      (
        assign c Role.closed role,
        server,
        goes-IsValid v (move i now pc s) i pc (Pc.parting c a h) at refl
            (closed-IsTracked
              (assign-IsTracked v.tracked c Role.closed (λ e. cc) (λ e. cc) tt (λ _ _ e. cc)) c
              (assign_self c Role.closed role))
            v.audit
            (λ j differs. Leaves-mine i j role server s.audit.sessions c Role.closed differs mine)
            (
              assign_self c Role.closed role,
              (
                network,
                name,
                assign_other c a Role.closed role (λ q. cc (mine, my_agent)) ∙ my_agent,
              ),
              serves,
            )
            (omega arith),
      )

  pub parting-IsKept :
      (c a : Conn) (h : Handle)
      → get_elem? s.threads i ≡ some (Pc.parting c a h)
      → IsKept (move i now (Pc.parting c a h) s)
  parting-IsKept c a h at =
      let pc = Pc.parting c a h in
      let (_, (network, name, mine), serves) = v.held i pc at in
      (
        assign a Role.closed role,
        server,
        goes-IsValid v (move i now pc s) i pc (Pc.draining h) at refl
            (closed-IsTracked
              (assign-IsTracked v.tracked a Role.closed (λ e. cc) (λ e. cc) tt (λ _ _ e. cc)) a
              (assign_self a Role.closed role))
            v.audit
            (λ j differs.
              Leaves-my_agent i j role server s.audit.sessions a Role.closed differs mine)
            serves (omega arith),
      )

  pub draining-IsKept :
      (h : Handle)
      → get_elem? s.threads i ≡ some (Pc.draining h)
      → IsKept (move i now (Pc.draining h) s)
  draining-IsKept h at =
      let pc = Pc.draining h in
      (
        role,
        server,
        goes-IsValid v (move i now pc s) i pc (Pc.ending h) at refl v.tracked v.audit
            (λ j _. Leaves-refl j role server s.audit.sessions) (v.held i pc at) (omega arith),
      )

  pub ending-IsKept :
      (h : Handle)
      → get_elem? s.threads i ≡ some (Pc.ending h)
      → now ≢ 0
      → IsKept (move i now (Pc.ending h) s)
  ending-IsKept h at nonzero =
      let pc = Pc.ending h in
      let (mine, o) = v.held i pc at in
      let (ended, count) = end_once now h s.audit o.session v.audit nonzero o.stored o.active in
      (
        role,
        server,
        goes-IsValid v (move i now pc s) i pc Pc.finished at refl v.tracked
            (end-IsValid now (some h) s.audit nonzero v.audit)
            (λ j differs.
              subst (λ ss. Leaves j role role server server s.audit.sessions ss) (sym ended)
                (Leaves-end j role server s.audit.sessions h (record o.session { ended = now })
                  (λ e. differs (sym mine ∙ e))))
            tt (omega (arith, count)),
      )
