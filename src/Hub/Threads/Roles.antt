-- ===== src/Hub/Threads/Roles.antt =====
-- cmd/netso-hub/main.go: which goroutine holds each connection and each session.
use netso.Common.{
  ℕ, ◌+◌, ◌≤◌, ◌==◌, ==_iff, ◌≡◌, ◌≢◌, ◌⊎◌, ap, ◌∙◌, none, some, List, [], ◌∷◌, get_elem?, All,
  if◌then◌else◌, arith, inl, inr, Bool-cases,
}
use netso.Common.Bytes.{Bytes}
use netso.Registry
use netso.Registry.{Record, Registry, Conn}
use netso.Registry.Lookup.{find}
use netso.Audit
use netso.Audit.{Session, Log, Handle}
use netso.Hub.Invariant.{IsOpen}
use netso.Hub.Threads.{Pc, State}

-- Who holds a connection: nobody yet, the registry under a name, a goroutine as its client, a
-- goroutine as an agent that dialled with a name, or nobody any more.
pub data Role : Type 0 where
  unborn : Role
  waiting : Bytes → Bytes → Role
  client : ℕ → Role
  agent : ℕ → Bytes → Bytes → Role
  closed : Role

abbrev pub Roles : Type 0
Roles = Conn → Role

abbrev pub assign : Conn → Role → Roles → Roles
assign c r role c' = if c == c' then r else role c'

-- What a goroutine holds. Its session is served by nobody else, and active.
module _ (role : Roles) (server : Handle → ℕ) (ss : List Session) where
  abbrev pub Serves : ℕ → Handle → Type 0
  Serves i s = (server s ≡ i) × IsOpen s ss

  abbrev pub Holds : ℕ → Pc → Type 0
  Holds i (Pc.registering network name pubkey c) = role c ≡ Role.agent i network name
  Holds i (Pc.replacing network name none) = Unit {0}
  Holds i (Pc.replacing network name (some p)) = role p ≡ Role.agent i network name
  Holds i (Pc.looking network name c) = role c ≡ Role.client i
  Holds i (Pc.rejecting c) = role c ≡ Role.client i
  Holds i (Pc.starting network name c a) =
      (role c ≡ Role.client i) × (role a ≡ Role.agent i network name)
  Holds i (Pc.relaying network name c a s) =
      (role c ≡ Role.client i) × (role a ≡ Role.agent i network name) × Serves i s
  Holds i (Pc.parting c a s) =
      (role c ≡ Role.closed)
      × ((network : Bytes) × (name : Bytes) × (role a ≡ Role.agent i network name))
      × Serves i s
  Holds i (Pc.draining s) = Serves i s
  Holds i (Pc.ending s) = Serves i s
  Holds i Pc.panicked = ⊥
  Holds i Pc.finished = Unit {0}

-- Whether a goroutine has a session that it will end.
abbrev pub serves : Pc → ℕ
serves (Pc.relaying network name c a s) = 1
serves (Pc.parting c a s) = 1
serves (Pc.draining s) = 1
serves (Pc.ending s) = 1
serves _ = 0

abbrev pub serving : List Pc → ℕ
serving [] = 0
serving (pc ∷ l) = serves pc + serving l

-- An agent dialled with this connection, for this network and name.
abbrev pub IsDialled : Conn → Bytes → Bytes → List (Conn × Bytes × Bytes) → Type 0
IsDialled c network name [] = ⊥
IsDialled c network name (d ∷ l) =
    ((d.0 ≡ c) × (d.1 ≡ network) × (d.2 ≡ name)) ⊎ IsDialled c network name l

-- A connection that waits, or that a goroutine has as an agent's, was dialled so.
abbrev pub IsNamed : List (Conn × Bytes × Bytes) → Conn → Role → Type 0
IsNamed l c (Role.waiting network name) = IsDialled c network name l
IsNamed l c (Role.agent i network name) = IsDialled c network name l
IsNamed l c _ = Unit {0}

-- Every connection has the role that the hub's records give it.
pub record IsTracked (r : Registry) (shut : List Conn) (next : Conn)
    (dialled : List (Conn × Bytes × Bytes)) (role : Roles) : Type 0 where
  pub reg : Registry.Lookup.IsValid r
  pub registered :
      (network name : Bytes) (rec : Record)
      → find network name r ≡ some rec
      → (c : Conn) × (rec.conn ≡ some c) × (role c ≡ Role.waiting network name)
  pub dropped : All (λ c. role c ≡ Role.closed) shut
  pub fresh : (c : Conn) → next ≤ c → role c ≡ Role.unborn
  pub named : (c : Conn) → IsNamed dialled c (role c)

pub record IsValid (s : State) (role : Roles) (server : Handle → ℕ) : Type 0 where
  pub tracked : IsTracked s.reg s.closed s.next s.dialled role
  pub audit : Audit.Count.IsValid s.audit
  pub held :
      (i : ℕ) (pc : Pc) → get_elem? s.threads i ≡ some pc → Holds role server s.audit.sessions i pc
  pub counted : s.audit.active ≡ serving s.threads

pub assign_self : (c : Conn) (r : Role) (role : Roles) → assign c r role c ≡ r
assign_self c r role = ground arith

-- A connection in another role is another connection.
pub assign_other :
    (c c' : Conn) (r : Role) (role : Roles) → role c ≢ role c' → assign c r role c' ≡ role c'
assign_other c c' r role other = elim (Bool-cases (c == c')) [
  | inl same ↦ absurd (other (ap role ((==_iff c c').0 same)))
  | inr differs ↦ rw differs
]

-- What a step leaves to the other goroutines, of which j is one.
pub record Leaves (j : ℕ) (role role' : Roles) (server server' : Handle → ℕ) (ss ss' : List Session)
    : Type 0 where
  pub client : (c : Conn) → role c ≡ Role.client j → role' c ≡ Role.client j
  pub agent :
      (c : Conn) (network name : Bytes)
      → role c ≡ Role.agent j network name
      → role' c ≡ Role.agent j network name
  pub closed : (c : Conn) → role c ≡ Role.closed → role' c ≡ Role.closed
  pub serves : (s : Handle) → Serves role server ss j s → Serves role' server' ss' j s

pub Holds-Leaves :
    (j : ℕ) (role role' : Roles) (server server' : Handle → ℕ) (ss ss' : List Session) (pc : Pc)
    → Leaves j role role' server server' ss ss'
    → Holds role server ss j pc
    → Holds role' server' ss' j pc
Holds-Leaves j role role' server server' ss ss' (Pc.registering network name pubkey c) l h =
    l.agent c network name h
Holds-Leaves j role role' server server' ss ss' (Pc.replacing network name none) l h = tt
Holds-Leaves j role role' server server' ss ss' (Pc.replacing network name (some p)) l h =
    l.agent p network name h
Holds-Leaves j role role' server server' ss ss' (Pc.looking network name c) l h = l.client c h
Holds-Leaves j role role' server server' ss ss' (Pc.rejecting c) l h = l.client c h
Holds-Leaves j role role' server server' ss ss' (Pc.starting network name c a) l h =
    (l.client c h.0, l.agent a network name h.1)
Holds-Leaves j role role' server server' ss ss' (Pc.relaying network name c a s) l h =
    (l.client c h.0, l.agent a network name h.1, l.serves s h.2)
Holds-Leaves j role role' server server' ss ss' (Pc.parting c a s) l h =
    (l.closed c h.0, (h.1.0, h.1.1, l.agent a h.1.0 h.1.1 h.1.2), l.serves s h.2)
Holds-Leaves j role role' server server' ss ss' (Pc.draining s) l h = l.serves s h
Holds-Leaves j role role' server server' ss ss' (Pc.ending s) l h = l.serves s h
Holds-Leaves j role role' server server' ss ss' Pc.panicked l h = h
Holds-Leaves j role role' server server' ss ss' Pc.finished l h = tt

-- A connection gets a new role that was nobody's, or another goroutine's.
pub Leaves-assign :
    (j : ℕ) (role : Roles) (server : Handle → ℕ) (ss : List Session) (c : Conn) (r : Role)
    → role c ≢ Role.client j
    → ((network name : Bytes) → role c ≢ Role.agent j network name)
    → role c ≢ Role.closed
    → Leaves j role (assign c r role) server server ss ss
Leaves-assign j role server ss c r not_client not_agent not_closed = record {
  client = λ c' e. assign_other c c' r role (λ q. not_client (q ∙ e)) ∙ e;
  agent = λ c' network name e. assign_other c c' r role (λ q. not_agent network name (q ∙ e)) ∙ e;
  closed = λ c' e. assign_other c c' r role (λ q. not_closed (q ∙ e)) ∙ e;
  serves = λ s h. h;
}

pub Leaves-refl :
    (j : ℕ) (role : Roles) (server : Handle → ℕ) (ss : List Session)
    → Leaves j role role server server ss ss
Leaves-refl j role server ss = record {
  client = λ c e. e;
  agent = λ c network name e. e;
  closed = λ c e. e;
  serves = λ s h. h;
}

pub Leaves-trans :
    (j : ℕ) {a b c : Roles} {server server' server'' : Handle → ℕ} {ss ss' ss'' : List Session}
    → Leaves j a b server server' ss ss'
    → Leaves j b c server' server'' ss' ss''
    → Leaves j a c server server'' ss ss''
Leaves-trans j k l = record {
  client = λ d e. l.client d (k.client d e);
  agent = λ d network name e. l.agent d network name (k.agent d network name e);
  closed = λ d e. l.closed d (k.closed d e);
  serves = λ s h. l.serves s (k.serves s h);
}
