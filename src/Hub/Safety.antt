-- ===== src/Hub/Safety.antt =====
-- cmd/netso-hub/main.go: what holds of a hub after any requests and ends of relays, in any order.
use Prim.Native.Nat.{min}
use mathlib.Core.List.{reverse}
use netso.Common.{ℕ, ◌≡◌, ◌≢◌, ap, Bool, some, List, [], ◌∷◌, length, take, All}
use netso.Common.Bytes.{Bytes}
use netso.Registry.{Record, Conn}
use netso.Registry.Lookup.{find}
use netso.Audit
use netso.Audit.{Session, Handle}
use netso.Audit.History.{recent_newest}
use netso.Hub.{Hub, Relay, Event, panicked, handle_connect, handle_status, new_hub, step, run}
use netso.Hub.Invariant.{
  Role, Roles, IsServed, DistinctSessions, IsValid, no_roles, new_hub-IsValid,
}
use netso.Hub.Agent.{handle_agent-IsValid}
use netso.Hub.Connect.{handle_connect-IsValid, handle_connect-ne-panicked}
use netso.Hub.Done.{relay_done-IsValid}

-- A relay ends at a time after the zero time.
abbrev pub IsTimed : Event → Type 0
IsTimed (Event.agent network name pubkey upgrade) = Unit
IsTimed (Event.connect now network peer upgrade) = Unit
IsTimed (Event.done now i) = now ≢ 0

step-IsValid :
    (e : Event) (h : Hub) (role : Roles)
    → IsTimed e
    → IsValid h role
    → (role' : Roles) × IsValid (step e h) role'
unfolding step
step-IsValid (Event.agent network name pubkey upgrade) h role t v =
    handle_agent-IsValid network name pubkey h role v upgrade
step-IsValid (Event.connect now network peer upgrade) h role t v =
    handle_connect-IsValid now network peer h role v upgrade
step-IsValid (Event.done now i) h role t v = relay_done-IsValid now i h role t v

steps-IsValid :
    (es : List Event) (h : Hub) (role : Roles)
    → All IsTimed es
    → IsValid h role
    → (role' : Roles) × IsValid (run es h) role'
unfolding run
steps-IsValid [] h role t v = (role, v)
steps-IsValid (e ∷ es) h role t v =
    let (role', v') = step-IsValid e h role t.0 v in steps-IsValid es (step e h) role' t.1 v'

pub reachable-IsValid :
    (es : List Event) → All IsTimed es → (role : Roles) × IsValid (run es new_hub) role
reachable-IsValid es t = steps-IsValid es new_hub no_roles t new_hub-IsValid

-- Two relays share no connection.
abbrev pub Disjoint : Relay → Relay → Type 0
Disjoint r r' =
    (r'.client ≢ r.client) × (r'.client ≢ r.agent) × (r'.agent ≢ r.client) × (r'.agent ≢ r.agent)

-- No relay has one connection at both ends, and no two share a connection.
abbrev pub Apart : List Relay → Type 0
Apart [] = Unit
Apart (r ∷ l) = (r.client ≢ r.agent) × All (Disjoint r) l × Apart l

-- A connection is at no end of a relay.
abbrev pub IsOutside : Conn → Relay → Type 0
IsOutside c r = (r.client ≢ c) × (r.agent ≢ c)

module _ (role : Roles) (ss : List Session) where
  IsOutside-waiting :
      (l : List Relay) (c : Conn) (network name : Bytes)
      → role c ≡ Role.waiting network name
      → All (IsServed role ss) l
      → All (IsOutside c) l
  IsOutside-waiting [] c network name w s = tt
  IsOutside-waiting (r ∷ l) c network name w s = (
    ((λ q. cc (ap role q, w, s.0.client)), (λ q. cc (ap role q, w, s.0.agent))),
    IsOutside-waiting l c network name w s.1,
  )

  IsOutside-closed :
      (l : List Relay) (c : Conn)
      → role c ≡ Role.closed
      → All (IsServed role ss) l
      → All (IsOutside c) l
  IsOutside-closed [] c w s = tt
  IsOutside-closed (r ∷ l) c w s = (
    ((λ q. cc (ap role q, w, s.0.client)), (λ q. cc (ap role q, w, s.0.agent))),
    IsOutside-closed l c w s.1,
  )

  IsOutside-dropped :
      (l : List Relay) (cs : List Conn)
      → All (λ c. role c ≡ Role.closed) cs
      → All (IsServed role ss) l
      → All (λ c. All (IsOutside c) l) cs
  IsOutside-dropped l [] d s = tt
  IsOutside-dropped l (c ∷ cs) d s = (IsOutside-closed l c d.0 s, IsOutside-dropped l cs d.1 s)

  not_dropped :
      (cs : List Conn) (c : Conn) (network name : Bytes)
      → role c ≡ Role.waiting network name
      → All (λ d. role d ≡ Role.closed) cs
      → All (λ d. d ≢ c) cs
  not_dropped [] c network name w d = tt
  not_dropped (x ∷ cs) c network name w d =
      ((λ q. cc (ap role q, w, d.0)), not_dropped cs c network name w d.1)

  Disjoint-rest :
      (l : List Relay) (r : Relay)
      → IsServed role ss r
      → All (λ r'. r'.session ≢ r.session) l
      → All (IsServed role ss) l
      → All (Disjoint r) l
  Disjoint-rest [] r sr d s = tt
  Disjoint-rest (x ∷ l) r sr d s = (
    (
      (λ q. d.0 (cc (ap role q, s.0.client, sr.client))),
      (λ q. cc (ap role q, s.0.client, sr.agent)),
      (λ q. cc (ap role q, s.0.agent, sr.client)),
      (λ q. d.0 (cc (ap role q, s.0.agent, sr.agent))),
    ),
    Disjoint-rest l r sr d.1 s.1,
  )

  relays-Apart : (l : List Relay) → All (IsServed role ss) l → DistinctSessions l → Apart l
  relays-Apart [] s d = tt
  relays-Apart (r ∷ l) s d = (
    (λ q. cc (ap role q, s.0.client, s.0.agent)),
    Disjoint-rest l r s.0 d.0 s.1,
    relays-Apart l s.1 d.1,
  )

-- After any requests and ends of relays, in any order, `/status` reports as active exactly as many
-- sessions as there are relays in progress, and as recent the newest of all sessions, newest first,
-- ten of them or as many as the log retains, if no relay ends at the zero time.
pub handle_status-run :
    (es : List Event)
    → All IsTimed es
    → let h = run es new_hub in
      ((handle_status h).active_sessions ≡ length h.relays)
      × ((handle_status h).recent_sessions
          ≡ some (take (min 10 h.audit.max) (reverse h.audit.sessions)))
unfolding handle_status Audit.active
handle_status-run es t =
    let (role, v) = reachable-IsValid es t in
    (v.counted, recent_newest 10 (run es new_hub).audit v.audit.retained)

-- After any requests and ends of relays, in any order, no two relays in progress share a connection,
-- none has the same connection at both ends, and no end of one has been closed, if no relay ends at
-- the zero time.
run-Apart :
    (es : List Event)
    → All IsTimed es
    → Apart (run es new_hub).relays
      × All (λ c. All (IsOutside c) (run es new_hub).relays) (run es new_hub).closed
run-Apart es t =
    let h = run es new_hub in
    let (role, v) = reachable-IsValid es t in
    (
      relays-Apart role h.audit.sessions h.relays v.relayed v.sessions,
      IsOutside-dropped role h.audit.sessions h.relays h.closed v.dropped v.relayed,
    )

-- After any requests and ends of relays, in any order, a peer that a lookup finds has a connection
-- that is neither closed nor an end of a relay in progress, if no relay ends at the zero time.
run-waiting :
    (es : List Event) (network name : Bytes) (rec : Record)
    → All IsTimed es
    → find network name (run es new_hub).reg ≡ some rec
    → (c : Conn) × (rec.conn ≡ some c)
      × All (λ d. d ≢ c) (run es new_hub).closed
      × All (IsOutside c) (run es new_hub).relays
run-waiting es network name rec t found =
    let h = run es new_hub in
    let (role, v) = reachable-IsValid es t in
    let w = v.registered network name rec found in
    (
      w.conn,
      w.there,
      not_dropped role h.audit.sessions h.closed w.conn network name w.waits v.dropped,
      IsOutside-waiting role h.audit.sessions h.relays w.conn network name w.waits v.relayed,
    )

-- After any requests and ends of relays, in any order, no request to /connect panics, whatever its
-- query and whether or not its upgrade succeeds, if no relay ends at the zero time.
connect-never-panics :
    (es : List Event) (now : ℕ) (network peer : Bytes) (upgrade : Bool)
    → All IsTimed es
    → (handle_connect now network peer upgrade (run es new_hub)).1 ≢ panicked
connect-never-panics es now network peer upgrade t =
    let (role, v) = reachable-IsValid es t in
    handle_connect-ne-panicked now network peer (run es new_hub) role v upgrade
