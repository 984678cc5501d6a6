-- ===== src/Hub/Routes.antt =====
-- cmd/netso-hub/main.go: the routes that `main` gives to the server, and a request on its way through
-- them. A path that a ServeMux would redirect first, as one with a double slash, is not modelled.
use netso.Common.{
  ℕ, ltb, ◌==◌, Bool, false, not, ◌≡◌, arith, Option, none, some, List, [], ◌∷◌, length,
  if◌then◌else◌,
}
use netso.Common.Bytes.{Bytes, codes, str_eq, has_prefix}
use netso.Url.Path.{path_of}
use netso.Registry.{Peer}
use netso.Hub.{Hub, Response, Status, agent_request, connect_request, peers_request, handle_status}

pub data Route : Type 0 where
  agent : Route
  connect : Route
  peers : Route
  status : Route
  healthz : Route
  files : Bytes → Route

-- The calls of `HandleFunc` and `Handle`, by their patterns.
unfoldable pub routes : Bytes → List (Bytes × Route)
unfolding str_eq
routes webdir =
    (codes "/agent", Route.agent)
    ∷ (codes "/connect", Route.connect)
    ∷ (codes "/peers", Route.peers)
    ∷ (codes "/status", Route.status)
    ∷ (codes "/healthz", Route.healthz)
    ∷ (if not (str_eq webdir []) then (codes "/", Route.files webdir) ∷ [] else [])

-- Whether a pattern of a ServeMux matches a path: a pattern that ends in a slash matches all that
-- begins with it.
abbrev pub ends_in_slash : Bytes → Bool
ends_in_slash [] = false
ends_in_slash (c ∷ []) = c == b'/'
ends_in_slash (c ∷ d ∷ s) = ends_in_slash (d ∷ s)

abbrev pub pattern_matches : Bytes → Bytes → Bool
pattern_matches pattern path =
    if ends_in_slash pattern then has_prefix path pattern else str_eq pattern path

-- The longer of two patterns.
abbrev pub longer : Bytes × Route → Option (Bytes × Route) → Option (Bytes × Route)
longer e none = some e
longer e (some f) = if ltb (length e.0) (length f.0) then some f else some e

-- Of the patterns that match, the longest.
unfoldable pub select : Bytes → List (Bytes × Route) → Option (Bytes × Route)
select path [] = none
select path (e ∷ es) =
    let rest = select path es in if pattern_matches e.0 path then longer e rest else rest

pub data Answer : Type 0 where
  handled : Response → Answer
  listed : Option (List Peer) → Answer
  reported : Status → Answer
  text : ℕ → Bytes → Answer
  from_files : Bytes → Bytes → Answer
  not_found : Answer

-- The handler of a route.
unfoldable pub dispatch : Route → ℕ → Bytes → Bool → Hub → Hub × Answer
dispatch Route.agent now url upgrade h =
    let (h', r) = agent_request url upgrade h in (h', Answer.handled r)
dispatch Route.connect now url upgrade h =
    let (h', r) = connect_request now url upgrade h in (h', Answer.handled r)
dispatch Route.peers now url upgrade h = (h, Answer.listed (peers_request url h))
dispatch Route.status now url upgrade h = (h, Answer.reported (handle_status h))
dispatch Route.healthz now url upgrade h = (h, Answer.text 200 (codes "ok"))
dispatch (Route.files dir) now url upgrade h = (h, Answer.from_files dir (path_of url))

-- A request to the server of `main`.
unfoldable pub serve : Bytes → ℕ → Bytes → Bool → Hub → Hub × Answer
serve webdir now url upgrade h = elim (select (path_of url) (routes webdir)) [
  | none ↦ (h, Answer.not_found)
  | some (pattern, route) ↦ dispatch route now url upgrade h
]

-- The paths of `main`, with the browser client served too or not.
module _ (webdir : Bytes) where
  pub select-agent : select (codes "/agent") (routes webdir) ≡ some (codes "/agent", Route.agent)
  unfolding select routes has_prefix str_eq
  select-agent = ground arith

  pub select-connect :
      select (codes "/connect") (routes webdir) ≡ some (codes "/connect", Route.connect)
  unfolding select routes has_prefix str_eq
  select-connect = ground arith

  pub select-peers : select (codes "/peers") (routes webdir) ≡ some (codes "/peers", Route.peers)
  unfolding select routes has_prefix str_eq
  select-peers = ground arith

  pub select-healthz :
      select (codes "/healthz") (routes webdir) ≡ some (codes "/healthz", Route.healthz)
  unfolding select routes has_prefix str_eq
  select-healthz = ground arith
