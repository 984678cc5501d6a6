-- ===== src/Lib.antt =====
-- Verification of netso: a hub that brokers end-to-end encrypted shell sessions between agents and
-- clients on named networks.
--
-- The parts and how they interact. An agent (cmd/netso-agent) dials the hub (cmd/netso-hub) and
-- waits; the hub keeps its websocket in the registry (internal/registry). A client (cmd/netso) looks
-- the agent up by discovery, pins its key and asks the hub for it; the hub takes the agent out of the
-- registry, notes a session in the audit log (internal/audit) and relays messages between the two
-- until one end fails. Through the relay both ends run the handshake of internal/secure over a
-- connection of internal/transport. A device's key is its DID (internal/did), and an anchor says
-- whether the DID is registered and not revoked.
--
-- Which file models which part:
--   Registry   internal/registry/registry.go: Registry is the map of maps; new, add, remove, take,
--              networks and list are the methods. Lookup, Methods: the methods against a lookup;
--              Spec: the directory that the registry implements; Discovery: List and Networks.
--   Audit      internal/audit/audit.go: Log is the log with every session ever started as its store,
--              so that a *Session is a place in it; start, end, active, recent and marshal_json are
--              the methods. History: what the log retains; Count: the live count.
--   Hub        cmd/netso-hub/main.go: handle_agent, handle_connect, handle_peers, handle_status are
--              the handlers, relay_done is the end of relay; Event, step and run are the requests and
--              ends of relays in any order. Invariant gives each connection a role; Agent, Connect
--              and Done keep it; Safety and Brokering hold what follows. agent_request,
--              peers_request and connect_request read the URL. Pumps: relay and copyMsgs as steps in
--              any order, with Order, Ends and Work. Threads: the handlers of agents and clients as
--              goroutines, of which each step is one atomic call: Pc is where a goroutine stands and
--              move its step; there Roles, Tracking, Held and Leaving hold the invariant;
--              Registering, Connecting and Steps keep it; Exclusive and Accounted with NoLeak
--              hold what follows. Routes: the routes of main, and a request on its way through them;
--              Flags: the flags of main, and the port at which it listens.
--   Did        internal/did/did.go: from_x25519, matches, new_document, authorized, MemoryAnchor and
--              its methods. Identity: keys and DIDs; Anchor: registration and revocation.
--   Base58     base58Encode of internal/did/did.go, with a decoder of its own in Base58/RoundTrip.
--   Secure     internal/secure/secure.go: load_authorized_keys, authorized,
--              handshake, write, read; MsgConn is the interface of internal/transport/transport.go.
--              Admission: whom a handshake admits; Pinning: whom an initiator's session is with;
--              Identity: LoadKeypair, LoadOrCreateIdentity and ResolveIdentity over a map of files,
--              with Persistence for what lasts; KeyFile: the authorized-clients file; Channel: two
--              sessions over an ordered network, with Order and Delivery; Drain: the loop that reads a
--              session until it ends.
--   Agent      cmd/netso-agent/main.go: the allowlist closure and the URL. Serve: serve up to its
--              loops, with shell.Start of internal/shell/shell.go, and Admits; Serve/Loops: the two
--              loops as steps in any order, with Streams, Delivery, Ends, Progress and Finish. Main:
--              main from the parsed flags on, with Rounds.
--   Shell      internal/shell/shell.go: Read, Write and Close.
--   Client     cmd/netso/main.go: the key that `netso ssh` pins and the URL. Ssh: the command up to
--              its session and runExec, with Pinned and Exec. Commands: the choice of the command,
--              cmdKeygen and cmdDID, with Stable. Peers: cmdPeers, with Table.
--              Interactive: runInteractive as steps in any order, with Restored.
--   Wasm       cmd/netso-wasm/main.go: netsoConnect, with Outcome for the opening of the session and
--              Reading for what the page gets. Sending: send, close and the loop that writes, as steps
--              in any order, with Bound.
--   HubClient  internal/hubclient/hubclient.go: WSBase, HTTPBase and Peers.
--   Dial       what the callers' URLs are at the hub's handlers: Arrival, Served for the way through the
--              routes, and Meeting for an agent and
--              a client from end to end.
--   Pipe       internal/transport/transport.go: Pipe and the methods of pipeConn; Order: what arrives.
--   JsConn     internal/transport/transport_js.go: DialWS, its callbacks and the methods of JSConn as
--              events in any order, with Order.
--   WsConn     internal/transport/transport_ws.go: the methods of WSConn, called by any goroutines, with
--              Exclusive.
--   Json       what encoding/json makes of the strings of the hub's list of peers on their way to the
--              client: Text says which of them stay what they were.
--   Base64, Url what encoding/base64 and net/url do with the texts that the code passes to them: the
--              standard alphabet with padding, QueryEscape, and the query and the path of a URL.
--   Operator   operator/controllers.go: what PeerReconciler makes of a deployment for a Peer resource,
--              with Peer; Service: what HubReconciler makes of a deployment and of a service for a Hub
--              resource; Reconcile: both Reconcile methods, with Owned, Along, Kept,
--              Done and PeerDone. Manager: operator/main.go, with Watched and Started.
--   Common, Map, Sort, Digits: what the parts share: byte strings, lists, Go's maps as association
--              lists, sort.Slice as insertion, numbers as digits. Examples holds the tests of a part.
--
-- Conventions. A method that holds its mutex throughout is one step. A clock's reading and the outcome
-- of a websocket's upgrade are arguments; 0 is the zero time. A string is its list of bytes. A Go map
-- is an association list without repeated keys, in any order. A websocket is the number that it was
-- accepted under.
--
-- The client reads the hub's list of peers as JSON gives it: a string with each invalid byte replaced.
-- The other answers in JSON, of /status and of the DID commands, are the values that are encoded. Code
-- that drives a system has the state of the world passed on, and the calls of libraries as parameters.
-- The goroutines of one function are steps in any order; a blocked step changes nothing. In the
-- loops of serve a write to the terminal or to the connection waits while there is no room; in Threads
-- a goroutine that waits for `done` is one whose step has not come.
--
-- Bounds and fuel. The loop of divisions in base58_encode takes the number itself for its fuel, which
-- is enough since each round makes the number smaller; the loop of Recent counts down the entries, as
-- the code's index does. The loop that reads a session takes fuel for one read more than the session
-- gives texts. The channels keep their sizes, 16 for the pipe and 32 for each of the browser's two, and the agent's
-- buffer its 32768 bytes. All other loops follow a list.
--
-- Not modelled: HTTP, JSON and websockets (gorilla/websocket) beyond their results, and the Noise library
-- (github.com/flynn/noise), which is a parameter; the parsing of flags but for the hub's, and the page around the browser
-- client (web), which are input and output over the systems that they drive. The calls of the Kubernetes
-- API and of controller-runtime are parameters of the operator, whose controllers run one request after
-- the other.
pub mod Agent
pub mod Audit
pub mod Base58
pub mod Base64
pub mod Client
pub mod Common
pub mod Dial
pub mod Did
pub mod Digits
pub mod Hub
pub mod HubClient
pub mod JsConn
pub mod Json
pub mod Map
pub mod Operator
pub mod Pipe
pub mod Registry
pub mod Secure
pub mod Shell
pub mod Sort
pub mod Url
pub mod Wasm
pub mod WsConn
