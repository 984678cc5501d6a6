-- ===== src/Hub.antt =====
-- cmd/netso-hub/main.go: the handlers over the registry and the session log. The query of a request
-- and whether the upgrade to a websocket succeeds are arguments; a websocket that an upgrade returns
-- is a new connection, the number after all earlier ones. A handler runs as one step up to the
-- relay, which it leaves in `relays`; the end of the relay is a step of its own, and any steps of
-- other requests may stand between them.
pub mod Invariant
pub mod Agent
pub mod Connect
pub mod Done
pub mod Safety
pub mod Brokering
pub mod Pumps
pub mod Threads
pub mod Routes
pub mod Flags
mod Examples
use netso.Common.{
  ℕ, zero, suc, Bool, not, ◌||◌, Option, none, some, List, [], ◌∷◌, ◌++◌, map, get_elem?,
  if◌then◌else◌,
}
use netso.Common.Bytes.{Bytes, codes, str_eq}
use netso.Common.Int.{pos}
use netso.Map.{Map}
use netso.Json.{json_peer}
use netso.Url.{query_of, get}
use netso.Registry
use netso.Registry.{Registry, Peer, Conn, Any}
use netso.Audit
use netso.Audit.{Log, Session, Handle}

-- A call of `relay` that has not returned, with the session that it serves.
pub record Relay : Type 0 where
  pub client : Conn
  pub agent : Conn
  pub session : Handle

pub record Hub : Type 0 where
  pub reg : Registry
  pub audit : Log
  pub relays : List Relay
  pub closed : List Conn
  pub next : Conn

-- What a client gets. A failed upgrade has been answered by the upgrader.
pub data Response : Type 0 where
  bad_request : Bytes → Response
  upgrade_failed : Response
  upgraded : Conn → Response
  panicked : Response

-- `main`: the hub before the first request.
unfoldable pub new_hub : Hub
unfolding Registry.new Audit.new_log
new_hub = record {
  reg = Registry.new;
  audit = Audit.new_log (pos 100);
  relays = [];
  closed = [];
  next = 0;
}

-- `pc.Close()` if there is a previous connection
abbrev pub close_any : Any → Hub → Hub
close_any none h = h
close_any (some c) h = record h { closed = c ∷ h.closed }

unfoldable pub handle_agent : Bytes → Bytes → Bytes → Bool → Hub → Hub × Response
handle_agent network name pubkey upgrade h =
    if str_eq network [] || str_eq name []
    then (h, bad_request (codes "network and name are required"))
    else if not upgrade
    then (h, upgrade_failed)
    else let c = h.next in
      let peer : Peer = record { network = network; name = name; pubkey = pubkey } in
      let (reg, prev) = Registry.add peer (some c) h.reg in
      (close_any prev (record h { reg = reg; next = suc c }), upgraded c)

-- `none` is the bad request; otherwise what the encoded list is read as.
unfoldable pub handle_peers : Bytes → Hub → Option (List Peer)
handle_peers network h =
    if str_eq network [] then none else some (map json_peer (Registry.list network h.reg))

-- What `Take` returned, on a hub that has upgraded the client. The type assertion on a nil
-- connection panics.
abbrev pub broker : ℕ → Bytes → Bytes → Conn → Option (Peer × Any) → Hub → Hub × Response
broker now network peer client none h = (record h { closed = client ∷ h.closed }, upgraded client)
broker now network peer client (some (_, none)) h = (h, panicked)
broker now network peer client (some (_, some agent)) h =
    let (log, session) = Audit.start now network peer h.audit in
    (
      record h {
        audit = log;
        relays = h.relays ++ record { client = client; agent = agent; session = session } ∷ [];
      },
      upgraded client,
    )

unfoldable pub handle_connect : ℕ → Bytes → Bytes → Bool → Hub → Hub × Response
handle_connect now network peer upgrade h =
    if str_eq network [] || str_eq peer []
    then (h, bad_request (codes "network and peer are required"))
    else if not upgrade
    then (h, upgrade_failed)
    else let client = h.next in
      let (reg, taken) = Registry.take network peer h.reg in
      broker now network peer client taken (record h { reg = reg; next = suc client })

module _ {ℓ} {A : Type ℓ} where
  abbrev pub remove_at : ℕ → List A → List A
  remove_at i [] = []
  remove_at zero (x ∷ l) = l
  remove_at (suc i) (x ∷ l) = x ∷ remove_at i l

-- The i-th relay ends: `relay` closes both connections, and the handler ends the session.
unfoldable pub relay_done : ℕ → ℕ → Hub → Hub
relay_done now i h = elim (get_elem? h.relays i) [
  | none ↦ h
  | some r ↦ record h {
    closed = r.agent ∷ r.client ∷ h.closed;
    relays = remove_at i h.relays;
    audit = Audit.end now (some r.session) h.audit;
  }
]

-- A request, by its URL, on its way to its handler.
unfoldable pub agent_request : Bytes → Bool → Hub → Hub × Response
agent_request url upgrade h =
    let q = query_of url in
    handle_agent (get (codes "network") q) (get (codes "name") q) (get (codes "pubkey") q) upgrade h

unfoldable pub peers_request : Bytes → Hub → Option (List Peer)
peers_request url h = handle_peers (get (codes "network") (query_of url)) h

unfoldable pub connect_request : ℕ → Bytes → Bool → Hub → Hub × Response
connect_request now url upgrade h =
    let q = query_of url in
    handle_connect now (get (codes "network") q) (get (codes "peer") q) upgrade h

pub record Status : Type 0 where
  pub networks : Map ℕ
  pub active_sessions : ℕ
  pub recent_sessions : Option (List Session)

-- What `/status` encodes.
unfoldable pub handle_status : Hub → Status
handle_status h = record {
  networks = Registry.networks h.reg;
  active_sessions = Audit.active h.audit;
  recent_sessions = Audit.recent (pos 10) h.audit;
}

-- What changes the hub, with the query, the outcome of the upgrade and the readings of the clock.
pub data Event : Type 0 where
  agent : Bytes → Bytes → Bytes → Bool → Event
  connect : ℕ → Bytes → Bytes → Bool → Event
  done : ℕ → ℕ → Event

unfoldable pub step : Event → Hub → Hub
step (Event.agent network name pubkey upgrade) h = (handle_agent network name pubkey upgrade h).0
step (Event.connect now network peer upgrade) h = (handle_connect now network peer upgrade h).0
step (Event.done now i) h = relay_done now i h

unfoldable pub run : List Event → Hub → Hub
run [] h = h
run (e ∷ es) h = run es (step e h)
