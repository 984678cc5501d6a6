-- ===== src/Registry.antt =====
-- internal/registry/registry.go: the peers that are connected to a hub, grouped by network. Every
-- method holds the mutex from its first line to its last, so a method is one step of the state.
pub mod Lookup
pub mod Methods
pub mod Spec
pub mod Discovery
mod Examples
use netso.Common.{
  ℕ, ◌==◌, Bool, true, false, Option, none, some, List, [], ◌∷◌, length, if◌then◌else◌,
}
use netso.Common.Bytes.{Bytes}
use netso.Map.{Map, get, put, delete}
use netso.Sort.{sort_by}

-- Discovery metadata.
pub record Peer : Type 0 where
  pub network : Bytes
  pub name : Bytes
  pub pubkey : Bytes

-- A `*websocket.Conn` is its identity, and `any` holds one or is nil.
abbrev pub Conn : Type 0
Conn = ℕ

abbrev pub Any : Type 0
Any = Option Conn

-- `a == b` on interface values.
abbrev pub any_eq : Any → Any → Bool
any_eq none none = true
any_eq (some c) (some d) = c == d
any_eq _ _ = false

pub record Record : Type 0 where
  pub peer : Peer
  pub conn : Any

pub record Registry : Type 0 where
  pub m : Map (Map Record)

unfoldable pub new : Registry
new = record { m = [] }

-- `r.m[network]`, where a missing key reads as the nil map
abbrev pub net_of : Bytes → Registry → Map Record
net_of network r = elim (get network r.m) [ none ↦ [] | some net ↦ net ]

-- `net[name].conn`, where a missing key reads as the zero record
abbrev pub conn_at : Bytes → Map Record → Any
conn_at name net = elim (get name net) [ none ↦ none | some rec ↦ rec.conn ]

unfoldable pub add : Peer → Any → Registry → Registry × Any
add p conn r =
    let net = net_of p.network r in
    let prev = conn_at p.name net in
    (record { m = put p.network (put p.name (record { peer = p; conn = conn }) net) r.m }, prev)

-- `delete(net, name)`, and the network goes with its last peer
abbrev pub drop_peer : Bytes → Bytes → Map Record → Registry → Registry
drop_peer network name net r =
    let rest = delete name net in
    record { m = if length rest == 0 then delete network r.m else put network rest r.m }

unfoldable pub remove : Bytes → Bytes → Any → Registry → Registry
remove network name conn r = elim (get network r.m) [
  | none ↦ r
  | some net ↦ elim (get name net) [
    | none ↦ r
    | some cur ↦ if any_eq cur.conn conn then drop_peer network name net r else r
  ]
]

-- `none` is the result whose last component is false.
unfoldable pub take : Bytes → Bytes → Registry → Registry × Option (Peer × Any)
take network name r = elim (get network r.m) [
  | none ↦ (r, none)
  | some net ↦ elim (get name net) [
    | none ↦ (r, none)
    | some rec ↦ (drop_peer network name net r, some (rec.peer, rec.conn))
  ]
]

-- `counts[network] = len(peers)` over a range of the map
abbrev pub count_networks : Map (Map Record) → Map ℕ
count_networks [] = []
count_networks ((network, peers) ∷ m) = (network, length peers) ∷ count_networks m

unfoldable pub networks : Registry → Map ℕ
networks r = count_networks r.m

-- The peers of one network in the order of the range.
abbrev pub peers_of : Map Record → List Peer
peers_of [] = []
peers_of ((_, rec) ∷ net) = rec.peer ∷ peers_of net

abbrev pub peer_name : Peer → Bytes
peer_name p = p.name

unfoldable pub list : Bytes → Registry → List Peer
list network r = sort_by peer_name (peers_of (net_of network r))
