-- ===== src/Hub/Invariant.antt =====
-- cmd/netso-hub/main.go: who holds each connection, through every step of the hub.
use netso.Common.{
  suc, ◌≤◌, ◌==◌, ==_iff, ◌≡◌, ◌≢◌, refl, ap, ◌∙◌, true, false, ◌&&◌, some, List, [], ◌∷◌, length,
  get_elem?, All, if◌then◌else◌, arith, inl, inr, Bool-cases,
}
use netso.Common.Bytes.{Bytes, str_eq, str_eq_iff}
use netso.Common.Int.{pos}
use netso.Registry
use netso.Registry.{Record, Registry, Peer, Conn, Any}
use netso.Registry.Lookup.{find}
use netso.Audit
use netso.Audit.{Session, Log, Handle, is_active}
use netso.Audit.Count.{open_count}
use netso.Hub.{Relay, Hub, new_hub}

-- Who holds a connection.
pub data Role : Type 0 where
  unborn : Role
  waiting : Bytes → Bytes → Role
  client : Handle → Role
  agent : Handle → Role
  closed : Role

abbrev pub Roles : Type 0
Roles = Conn → Role

abbrev pub assign : Conn → Role → Roles → Roles
assign c r role c' = if c == c' then r else role c'

pub record IsOpen (s : Handle) (sessions : List Session) : Type 0 where
  pub session : Session
  pub stored : get_elem? sessions s ≡ some session
  pub active : is_active session ≡ true

-- The two ends of a relay serve its session, which is active.
pub record IsServed (role : Roles) (sessions : List Session) (r : Relay) : Type 0 where
  pub client : role r.client ≡ Role.client r.session
  pub agent : role r.agent ≡ Role.agent r.session
  pub open_session : IsOpen r.session sessions

abbrev pub DistinctSessions : List Relay → Type 0
DistinctSessions [] = Unit
DistinctSessions (r ∷ l) = All (λ r'. r'.session ≢ r.session) l × DistinctSessions l

-- A registered connection is there, and waits under the name that it is registered by.
pub record IsWaiting (role : Roles) (network name : Bytes) (rec : Record) : Type 0 where
  pub conn : Conn
  pub there : rec.conn ≡ some conn
  pub waits : role conn ≡ Role.waiting network name

pub record IsValid (h : Hub) (role : Roles) : Type 0 where
  pub reg : Registry.Lookup.IsValid h.reg
  pub audit : Audit.Count.IsValid h.audit
  pub registered :
      (network name : Bytes) (rec : Record)
      → find network name h.reg ≡ some rec
      → IsWaiting role network name rec
  pub relayed : All (IsServed role h.audit.sessions) h.relays
  pub sessions : DistinctSessions h.relays
  pub counted : h.audit.active ≡ length h.relays
  pub dropped : All (λ c. role c ≡ Role.closed) h.closed
  pub fresh : (c : Conn) → h.next ≤ c → role c ≡ Role.unborn

-- No connection that serves a session or is closed gets another role.
pub record Keeps (role role' : Roles) : Type 0 where
  pub client : (c : Conn) (s : Handle) → role c ≡ Role.client s → role' c ≡ Role.client s
  pub agent : (c : Conn) (s : Handle) → role c ≡ Role.agent s → role' c ≡ Role.agent s
  pub closed : (c : Conn) → role c ≡ Role.closed → role' c ≡ Role.closed

pub assign_self : (c : Conn) (r : Role) (role : Roles) → assign c r role c ≡ r
assign_self c r role = ground arith

-- A connection in another role is another connection.
pub assign_other :
    (c c' : Conn) (r : Role) (role : Roles) → role c ≢ role c' → assign c r role c' ≡ role c'
assign_other c c' r role other = elim (Bool-cases (c == c')) [
  | inl same ↦ absurd (other (ap role ((==_iff c c').0 same)))
  | inr differs ↦ rw differs
]

pub Keeps-unborn :
    (role : Roles) (c : Conn) (r : Role) → role c ≡ Role.unborn → Keeps role (assign c r role)
Keeps-unborn role c r e = record {
  client = λ c' s h. assign_other c c' r role (λ q. cc) ∙ h;
  agent = λ c' s h. assign_other c c' r role (λ q. cc) ∙ h;
  closed = λ c' h. assign_other c c' r role (λ q. cc) ∙ h;
}

pub Keeps-waiting :
    (role : Roles) (c : Conn) (r : Role) {network name : Bytes}
    → role c ≡ Role.waiting network name
    → Keeps role (assign c r role)
Keeps-waiting role c r e = record {
  client = λ c' s h. assign_other c c' r role (λ q. cc) ∙ h;
  agent = λ c' s h. assign_other c c' r role (λ q. cc) ∙ h;
  closed = λ c' h. assign_other c c' r role (λ q. cc) ∙ h;
}

pub Keeps-refl : (role : Roles) → Keeps role role
Keeps-refl role = record { client = λ c s h. h; agent = λ c s h. h; closed = λ c h. h }

pub Keeps-trans : {a b c : Roles} → Keeps a b → Keeps b c → Keeps a c
Keeps-trans k l = record {
  client = λ c s h. l.client c s (k.client c s h);
  agent = λ c s h. l.agent c s (k.agent c s h);
  closed = λ c h. l.closed c (k.closed c h);
}

pub dropped-Keeps :
    {role role' : Roles} (l : List Conn)
    → Keeps role role'
    → All (λ c. role c ≡ Role.closed) l
    → All (λ c. role' c ≡ Role.closed) l
dropped-Keeps [] k h = tt
dropped-Keeps (c ∷ l) k h = (k.closed c h.0, dropped-Keeps l k h.1)

pub relayed-Keeps :
    {role role' : Roles} (ss ss' : List Session) (l : List Relay)
    → Keeps role role'
    → ((s : Handle) → IsOpen s ss → IsOpen s ss')
    → All (IsServed role ss) l
    → All (IsServed role' ss') l
relayed-Keeps ss ss' [] k opens h = tt
relayed-Keeps ss ss' (r ∷ l) k opens h = (
  record {
    client = k.client r.client r.session h.0.client;
    agent = k.agent r.agent r.session h.0.agent;
    open_session = opens r.session h.0.open_session;
  },
  relayed-Keeps ss ss' l k opens h.1,
)

-- The hub before the first request.
pub no_roles : Roles
no_roles c = Role.unborn

pub new_hub-IsValid : IsValid new_hub no_roles
unfolding new_hub no_roles find
new_hub-IsValid = record {
  reg = Registry.Lookup.new-IsValid;
  audit = Audit.Count.new_log-IsValid (pos 100);
  registered =
      λ network name rec h. absurd (ground (arith, Registry.Spec.new-Implements.view network name));
  relayed = tt;
  sessions = tt;
  counted = refl;
  dropped = tt;
  fresh = λ c h. refl;
}

pub close-IsValid :
    (h : Hub) (role : Roles) (c : Conn)
    → IsValid h role
    → role c ≡ Role.closed
    → IsValid (record h { closed = c ∷ h.closed }) role
close-IsValid h role c v e = record {
  reg = v.reg;
  audit = v.audit;
  registered = v.registered;
  relayed = v.relayed;
  sessions = v.sessions;
  counted = v.counted;
  dropped = (e, v.dropped);
  fresh = v.fresh;
}

-- A waiting connection keeps its role when another connection gets a new one.
pub IsWaiting-assign :
    (role : Roles) (c : Conn) (r : Role) (network name : Bytes) (rec : Record)
    → role c ≢ Role.waiting network name
    → IsWaiting role network name rec
    → IsWaiting (assign c r role) network name rec
IsWaiting-assign role c r network name rec other w = record {
  conn = w.conn;
  there = w.there;
  waits = assign_other c w.conn r role (λ q. other (q ∙ w.waits)) ∙ w.waits;
}

-- Waiting under one name is not waiting under another.
pub waiting_elsewhere :
    {r : Role} {network name : Bytes} (network' name' : Bytes)
    → r ≡ Role.waiting network name
    → (str_eq network network' && str_eq name name') ≡ false
    → r ≢ Role.waiting network' name'
waiting_elsewhere {network} {name} network' name' w other e =
    let same_network : network ≡ network' = cc in
    let same_name : name ≡ name' = cc in
    absurd (ground (arith, str_eq_iff network network', str_eq_iff name name'))

-- The next connection gets its role.
pub fresh-assign :
    (role : Roles) (next : Conn) (r : Role)
    → ((c : Conn) → next ≤ c → role c ≡ Role.unborn)
    → (c : Conn) → suc next ≤ c
    → assign next r role c ≡ Role.unborn
fresh-assign role next r fresh c le = ground (arith, fresh c)
