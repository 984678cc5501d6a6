-- ===== src/Hub/Threads.antt =====
-- cmd/netso-hub/main.go: the handlers again, now as goroutines that run at the same time. A step of
-- one goroutine is one call that is atomic: a method of the registry or of the log, which holds its
-- mutex throughout, the closing of a connection, or a receipt from `done`. Steps of the others come anywhere between.
pub mod Roles
pub mod Tracking
pub mod Held
pub mod Leaving
pub mod Registering
pub mod Connecting
pub mod Steps
pub mod Exclusive
pub mod Accounted
pub mod NoLeak
mod Examples
use netso.Common.{
  ℕ, zero, suc, Bool, true, false, not, ◌||◌, ◌&&◌, Option, none, some, List, [], ◌∷◌, ◌++◌,
  get_elem?, set, if◌then◌else◌,
}
use netso.Common.Bytes.{Bytes, str_eq}
use netso.Common.Int.{pos}
use netso.Registry
use netso.Registry.{Registry, Peer, Conn, Any}
use netso.Audit
use netso.Audit.{Log, Handle}

-- Where a handler stands, with the local variables that are live there.
pub data Pc : Type 0 where
  registering : (network name pubkey : Bytes) → (c : Conn) → Pc  -- before `h.reg.Add`
  replacing : (network name : Bytes) → (prev : Any) → Pc  -- before `pc.Close()`
  looking : (network name : Bytes) → (client : Conn) → Pc  -- before `h.reg.Take`
  rejecting : (client : Conn) → Pc  -- before `client.Close()`
  starting : (network name : Bytes) → (client agent : Conn) → Pc  -- before `h.audit.Start`
  relaying : (network name : Bytes) → (client agent : Conn) → (session : Handle) → Pc
  parting : (client agent : Conn) → (session : Handle) → Pc  -- before `b.Close()`
  draining : (session : Handle) → Pc  -- before the second `<-done`
  ending : (session : Handle) → Pc  -- before `h.audit.End`
  panicked : Pc
  finished : Pc

-- `dialled` keeps for each connection of an agent what the agent asked for.
pub record State : Type 0 where
  pub reg : Registry
  pub audit : Log
  pub closed : List Conn
  pub next : Conn
  pub threads : List Pc
  pub dialled : List (Conn × Bytes × Bytes)

unfoldable pub start : State
unfolding Registry.new Audit.new_log
start = record {
  reg = Registry.new;
  audit = Audit.new_log (pos 100);
  closed = [];
  next = 0;
  threads = [];
  dialled = [];
}

-- A request that is not refused and is upgraded gets a goroutine that holds its new connection.
unfoldable pub agent_arrives : Bytes → Bytes → Bytes → Bool → State → State
agent_arrives network name pubkey upgrade s =
    if (str_eq network [] || str_eq name []) || not upgrade then s else record s {
      next = suc s.next;
      threads = s.threads ++ Pc.registering network name pubkey s.next ∷ [];
      dialled = (s.next, network, name) ∷ s.dialled;
    }

unfoldable pub client_arrives : Bytes → Bytes → Bool → State → State
client_arrives network peer upgrade s =
    if (str_eq network [] || str_eq peer []) || not upgrade
    then s
    else record s { next = suc s.next; threads = s.threads ++ Pc.looking network peer s.next ∷ [] }

-- What `Take` returned.
abbrev pub after_take : Bytes → Bytes → Conn → Option (Peer × Any) → Pc
after_take network name client none = Pc.rejecting client
after_take network name client (some (p, none)) = Pc.panicked
after_take network name client (some (p, some agent)) = Pc.starting network name client agent

-- One step of the i-th goroutine, at a time. The step at `relaying` is the first `<-done` with
-- `a.Close()`, at any moment at which one of the pumps has ended; the step at `draining` is the
-- second `<-done`, at any moment at which the other has, too. Hub/Pumps.antt says when they end.
abbrev pub move : ℕ → ℕ → Pc → State → State
move i now (Pc.registering network name pubkey c) s =
    let peer : Peer = record { network = network; name = name; pubkey = pubkey } in
    let (reg, prev) = Registry.add peer (some c) s.reg in
    record s { reg = reg; threads = set s.threads i (Pc.replacing network name prev) }
move i now (Pc.replacing network name none) s = record s { threads = set s.threads i Pc.finished }
move i now (Pc.replacing network name (some p)) s = record s {
  closed = p ∷ s.closed;
  threads = set s.threads i Pc.finished;
}
move i now (Pc.looking network name client) s =
    let (reg, taken) = Registry.take network name s.reg in
    record s { reg = reg; threads = set s.threads i (after_take network name client taken) }
move i now (Pc.rejecting client) s = record s {
  closed = client ∷ s.closed;
  threads = set s.threads i Pc.finished;
}
move i now (Pc.starting network name client agent) s =
    let (log, session) = Audit.start now network name s.audit in
    record s {
      audit = log;
      threads = set s.threads i (Pc.relaying network name client agent session);
    }
move i now (Pc.relaying network name client agent session) s = record s {
  closed = client ∷ s.closed;
  threads = set s.threads i (Pc.parting client agent session);
}
move i now (Pc.parting client agent session) s = record s {
  closed = agent ∷ s.closed;
  threads = set s.threads i (Pc.draining session);
}
move i now (Pc.draining session) s = record s { threads = set s.threads i (Pc.ending session) }
move i now (Pc.ending session) s = record s {
  audit = Audit.end now (some session) s.audit;
  threads = set s.threads i Pc.finished;
}
move i now Pc.panicked s = s
move i now Pc.finished s = s

unfoldable pub advance : ℕ → ℕ → State → State
advance i now s = elim (get_elem? s.threads i) [ none ↦ s | some pc ↦ move i now pc s ]

pub data Action : Type 0 where
  agent : Bytes → Bytes → Bytes → Bool → Action
  client : Bytes → Bytes → Bool → Action
  goes : ℕ → ℕ → Action

unfoldable pub step : Action → State → State
step (Action.agent network name pubkey upgrade) s = agent_arrives network name pubkey upgrade s
step (Action.client network peer upgrade) s = client_arrives network peer upgrade s
step (Action.goes i now) s = advance i now s

unfoldable pub run : List Action → State → State
run [] s = s
run (a ∷ rest) s = run rest (step a s)
