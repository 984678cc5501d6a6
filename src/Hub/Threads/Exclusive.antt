-- ===== src/Hub/Threads/Exclusive.antt =====
-- cmd/netso-hub/main.go: what the handlers hold while they run at the same time, in any order.
use netso.Common.{
  Option, AllPairs, AllPairs-of, All-of, ℕ, ◌≡◌, ◌≢◌, refl, sym, ap, ◌∙◌, subst, none, some, List,
  [], ◌∷◌, get_elem?, All,
}
use netso.Common.Bytes.{Bytes}
use netso.Registry.{Record, Conn}
use netso.Registry.Lookup.{find}
use netso.Audit
use netso.Audit.{Session, Handle}
use netso.Hub.Invariant.{IsOpen}
use netso.Hub.Threads.{Pc, State, Action, start, run}
use netso.Hub.Threads.Roles.{Role, Roles, Holds, IsDialled, IsNamed, IsValid, serving}
use netso.Hub.Threads.Steps.{IsTimed, run-IsKept, start-IsKept}

-- The connections that a goroutine uses from now on.
abbrev pub live : Pc → List Conn
live (Pc.registering network name pubkey c) = c ∷ []
live (Pc.replacing network name none) = []
live (Pc.replacing network name (some p)) = p ∷ []
live (Pc.looking network name c) = c ∷ []
live (Pc.rejecting c) = c ∷ []
live (Pc.starting network name c a) = c ∷ a ∷ []
live (Pc.relaying network name c a h) = c ∷ a ∷ []
live (Pc.parting c a h) = a ∷ []
live _ = []

-- A connection is not in the list.
abbrev pub IsApart : List Conn → Conn → Type 0
IsApart l c = All (λ c'. c ≢ c') l

-- Two goroutines use no connection in common.
abbrev pub AreApart : Pc → Pc → Type 0
AreApart pc pc' = All (IsApart (live pc')) (live pc)

-- A relay joins two connections, the agent's dialled for what the client asked for, in an active session.
abbrev pub IsBrokered : State → Pc → Type 0
IsBrokered s (Pc.relaying network name c a h) =
    (c ≢ a) × IsDialled a network name s.dialled × IsOpen h s.audit.sessions
IsBrokered s _ = Unit {0}

-- The connection of a record that is found is there, was dialled so, and is neither closed nor used.
abbrev pub IsIdle : State → Bytes → Bytes → Option Record → Type 0
IsIdle s network name none = Unit {0}
IsIdle s network name (some rec) =
    (c : Conn) × (rec.conn ≡ some c)
    × IsDialled c network name s.dialled
    × IsApart s.closed c
    × All (λ pc. IsApart (live pc) c) s.threads

-- What holds of the goroutines of a hub at any moment.
pub record IsExclusive (s : State) : Type 0 where
  pub apart : AllPairs AreApart s.threads
  pub unshut : All (λ pc. All (IsApart s.closed) (live pc)) s.threads
  pub running : All (λ pc. pc ≢ Pc.panicked) s.threads
  pub brokered : All (IsBrokered s) s.threads
  pub registered : (network name : Bytes) → IsIdle s network name (find network name s.reg)

-- The role of a connection that the i-th goroutine holds.
abbrev IsMine : ℕ → Role → Type 0
IsMine i (Role.client j) = i ≡ j
IsMine i (Role.agent j network name) = i ≡ j
IsMine i _ = ⊥

IsMine-unique : (i j : ℕ) (r : Role) → IsMine i r → IsMine j r → i ≡ j
IsMine-unique i j (Role.client k) h h' = h ∙ sym h'
IsMine-unique i j (Role.agent k network name) h h' = h ∙ sym h'
IsMine-unique i j Role.unborn h h' = absurd h
IsMine-unique i j (Role.waiting network name) h h' = absurd h
IsMine-unique i j Role.closed h h' = absurd h

client_ne_agent : {i j : ℕ} {network name : Bytes} → Role.client i ≢ Role.agent j network name
client_ne_agent e = cc

module _ (role : Roles) where
  abbrev AllMine : ℕ → List Conn → Type 0
  AllMine i l = All (λ c. IsMine i (role c)) l

  client-IsMine : (i : ℕ) (c : Conn) → role c ≡ Role.client i → IsMine i (role c)
  client-IsMine i c e = subst (IsMine i) (sym e) refl

  agent-IsMine :
      (i : ℕ) (c : Conn) {network name : Bytes}
      → role c ≡ Role.agent i network name
      → IsMine i (role c)
  agent-IsMine i c e = subst (IsMine i) (sym e) refl

  live-AllMine :
      (server : Handle → ℕ) (ss : List Session) (i : ℕ) (pc : Pc)
      → Holds role server ss i pc
      → AllMine i (live pc)
  live-AllMine server ss i (Pc.registering network name pubkey c) h = (agent-IsMine i c h, tt)
  live-AllMine server ss i (Pc.replacing network name none) h = tt
  live-AllMine server ss i (Pc.replacing network name (some p)) h = (agent-IsMine i p h, tt)
  live-AllMine server ss i (Pc.looking network name c) h = (client-IsMine i c h, tt)
  live-AllMine server ss i (Pc.rejecting c) h = (client-IsMine i c h, tt)
  live-AllMine server ss i (Pc.starting network name c a) h =
      (client-IsMine i c h.0, (agent-IsMine i a h.1, tt))
  live-AllMine server ss i (Pc.relaying network name c a s) h =
      (client-IsMine i c h.0, (agent-IsMine i a h.1, tt))
  live-AllMine server ss i (Pc.parting c a s) h = (agent-IsMine i a h.1.2, tt)
  live-AllMine server ss i (Pc.draining s) h = tt
  live-AllMine server ss i (Pc.ending s) h = tt
  live-AllMine server ss i Pc.panicked h = absurd h
  live-AllMine server ss i Pc.finished h = tt

  -- A connection in a role that is not the j-th goroutine's is none of those.
  mine-IsApart :
      (j : ℕ) (c : Conn) (l : List Conn) → AllMine j l → (IsMine j (role c) → ⊥) → IsApart l c
  mine-IsApart j c [] h other = tt
  mine-IsApart j c (c' ∷ l) h other =
      (λ e. other (subst (λ d. IsMine j (role d)) (sym e) h.0), mine-IsApart j c l h.1 other)

  closed-IsApart :
      (c : Conn) (l : List Conn)
      → All (λ d. role d ≡ Role.closed) l
      → role c ≢ Role.closed
      → IsApart l c
  closed-IsApart c [] h out = tt
  closed-IsApart c (d ∷ l) h out = (λ e. out (ap role e ∙ h.0), closed-IsApart c l h.1 out)

  -- What holds of any connection in a goroutine's role holds of all that it uses.
  mine-All {ℓ} :
      (i : ℕ) (P : Conn → Type ℓ) (l : List Conn)
      → AllMine i l
      → ((c : Conn) → IsMine i (role c) → P c)
      → All P l
  mine-All i P [] h f = tt
  mine-All i P (c ∷ l) h f = (f c h.0, mine-All i P l h.1 f)

module _ (s : State) (role : Roles) (server : Handle → ℕ) (v : IsValid s role server) where
  mine : (i : ℕ) (pc : Pc) → get_elem? s.threads i ≡ some pc → AllMine role i (live pc)
  mine i pc at = live-AllMine role server s.audit.sessions i pc (v.held i pc at)

  find-IsIdle :
      (network name : Bytes) (o : Option Record)
      → find network name s.reg ≡ o
      → IsIdle s network name o
  find-IsIdle network name none found = tt
  find-IsIdle network name (some rec) found =
      let (c, there, waits) = v.tracked.registered network name rec found in
      (
        c,
        there,
        subst (IsNamed s.dialled c) waits (v.tracked.named c),
        closed-IsApart role c s.closed v.tracked.dropped (λ e. cc),
        All-of (λ pc. IsApart (live pc) c) s.threads
            (λ i pc at.
              mine-IsApart role i c (live pc) (mine i pc at) (λ h. subst (IsMine i) waits h)),
      )

  held-IsBrokered : (i : ℕ) (pc : Pc) → Holds role server s.audit.sessions i pc → IsBrokered s pc
  held-IsBrokered i (Pc.relaying network name c a h) (client, agent, serves) = (
    λ e. client_ne_agent (sym client ∙ ap role e ∙ agent),
    subst (IsNamed s.dialled a) agent (v.tracked.named a),
    serves.1,
  )
  held-IsBrokered i (Pc.registering network name pubkey c) h = tt
  held-IsBrokered i (Pc.replacing network name p) h = tt
  held-IsBrokered i (Pc.looking network name c) h = tt
  held-IsBrokered i (Pc.rejecting c) h = tt
  held-IsBrokered i (Pc.starting network name c a) h = tt
  held-IsBrokered i (Pc.parting c a h') h = tt
  held-IsBrokered i (Pc.draining h') h = tt
  held-IsBrokered i (Pc.ending h') h = tt
  held-IsBrokered i Pc.panicked h = tt
  held-IsBrokered i Pc.finished h = tt

  valid-IsExclusive : IsExclusive s
  valid-IsExclusive = record {
    apart = AllPairs-of AreApart s.threads (λ i j pc pc' differs at at'.
        mine-All role i (IsApart (live pc')) (live pc) (mine i pc at) (λ c h.
          mine-IsApart role j c (live pc') (mine j pc' at')
            (λ h'. differs (IsMine-unique i j (role c) h h'))));
    unshut =
        All-of (λ pc. All (IsApart s.closed) (live pc)) s.threads
          (λ i pc at.
            mine-All role i (IsApart s.closed) (live pc) (mine i pc at) (λ c h.
              closed-IsApart role c s.closed v.tracked.dropped (λ e. subst (IsMine i) e h)));
    running =
        All-of (λ pc. pc ≢ Pc.panicked) s.threads
          (λ i pc at e. subst (Holds role server s.audit.sessions i) e (v.held i pc at));
    brokered = All-of (IsBrokered s) s.threads (λ i pc at. held-IsBrokered i pc (v.held i pc at));
    registered = λ network name. find-IsIdle network name (find network name s.reg) refl;
  }

-- After any requests and any steps of their goroutines, in any order: two goroutines use no
-- connection in common; none uses one that is closed; a registered connection was dialled for the
-- network and the name that it is registered by, is not closed and is used by no goroutine; a relay
-- joins two different connections, of which the agent's was dialled for the network and the name
-- that the client asked for, in a session that is active; and no goroutine has panicked. The clock
-- does not read the zero time.
pub threads-IsExclusive : (acts : List Action) → All IsTimed acts → IsExclusive (run acts start)
threads-IsExclusive acts t =
    let (role, server, v) = run-IsKept acts start t start-IsKept in
    valid-IsExclusive (run acts start) role server v

-- At any such moment `Active` is the number of goroutines between their `Start` and their `End`.
pub active-serving :
    (acts : List Action)
    → All IsTimed acts
    → Audit.active (run acts start).audit ≡ serving (run acts start).threads
unfolding Audit.active
active-serving acts t = let (role, server, v) = run-IsKept acts start t start-IsKept in v.counted
