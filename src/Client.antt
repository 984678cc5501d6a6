-- ===== src/Client.antt =====
-- cmd/netso/main.go: the key that `netso ssh` pins before it connects, and the URL that it dials. The answer of the hub's
-- discovery is an argument.
pub mod Ssh
pub mod Peers
pub mod Interactive
pub mod Commands
use mathlib.Core.Option
use netso.Common.{
  ◌++◌, Bool, not, Option, none, some, List, [], ◌∷◌, map, ◌≡◌, ◌≢◌, refl, sym, ap, ◌∙◌, inl, inr,
  if◌then◌else◌, arith, Option-cases, Bool-cases, false,
}
use netso.Common.Bytes.{Bytes, codes, str_eq, str_eq_iff}
use netso.Base64.{decode_public}
use netso.Url.{query_escape}
use netso.Json.{json_text, json_peer, text_from}
use netso.Json.Text.{IsText, json_text-only}
use netso.HubClient.{ws_base}
use netso.Registry.{Registry, Peer, Record, list}
use netso.Registry.Lookup.{find, IsValid}
use netso.Registry.Discovery.{first_named, first_named-list}

-- The loop over the peers, up to the first of the name; empty when there is none.
unfoldable pub find_pin : Bytes → List Peer → Bytes
find_pin peer [] = []
find_pin peer (p ∷ peers) =
    let rest = find_pin peer peers in if str_eq p.name peer then p.pubkey else rest

-- `none` is the fatal "peer not found".
unfoldable pub pin : Bytes → Bytes → List Peer → Option Bytes
pin auth_agent peer peers =
    if str_eq auth_agent []
    then (let pin_b64 = find_pin peer peers in if str_eq pin_b64 [] then none else some pin_b64)
    else some auth_agent

-- The key that is pinned, decoded; `none` is fatal here too.
unfoldable pub pin_key : Bytes → Bytes → List Peer → Option Bytes
pin_key auth_agent peer peers = elim (pin auth_agent peer peers) [
  | none ↦ none
  | some pin_b64 ↦ decode_public pin_b64
]

-- The URL that `netso ssh` dials.
unfoldable pub connect_url : Bytes → Bytes → Bytes → Bytes
connect_url hub network peer =
    ws_base hub
    ++ (codes "/connect?network="
        ++ (query_escape network ++ (codes "&peer=" ++ query_escape peer)))

-- The key of the first peer that has the name.
abbrev pub pubkey_of : Option Peer → Bytes
pubkey_of none = []
pubkey_of (some p) = p.pubkey

find_pin-first : (peer : Bytes) (l : List Peer) → find_pin peer l ≡ pubkey_of (first_named peer l)
unfolding find_pin first_named
find_pin-first peer [] = refl
find_pin-first peer (p ∷ l) = ground (arith, find_pin-first peer l)

first_named-json :
    (name : Bytes) (l : List Peer)
    → IsText name
    → first_named name (map json_peer l) ≡ Option.map json_peer (first_named name l)
unfolding first_named json_peer
first_named-json name [] t = refl
first_named-json name (p ∷ l) t =
    ground (arith, json_text-only p.name name t, first_named-json name l t)

pubkey_of-json : (o : Option Peer) → pubkey_of (Option.map json_peer o) ≡ json_text (pubkey_of o)
unfolding json_peer json_text text_from
pubkey_of-json none = refl
pubkey_of-json (some p) = refl

-- With no key given, what the client pins from the list of a valid registry as it reads it is the key
-- of the peer that is registered under the name, for a name that JSON keeps, and the client gives up
-- exactly when nobody is registered under the name or the key is empty.
pub pin-json :
    (network peer : Bytes) (r : Registry)
    → IsValid r
    → IsText peer
    → pin [] peer (map json_peer (list network r)) ≡ (
        let key = json_text (pubkey_of (Option.map (λ rec. rec.peer) (find network peer r))) in
        if str_eq key [] then none else some key)
unfolding pin str_eq
pin-json network peer r v t =
    ap (λ key. if str_eq key [] then none else some key)
      (find_pin-first peer (map json_peer (list network r))
        ∙ ap pubkey_of (first_named-json peer (list network r) t)
        ∙ pubkey_of-json (first_named peer (list network r))
        ∙ ap (λ o. json_text (pubkey_of o)) (first_named-list network r v peer))
