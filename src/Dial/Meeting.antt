-- ===== src/Dial/Meeting.antt =====
-- An agent, the hub and a client together.
use mathlib.Core.Option
use netso.Common.{
  ℕ, suc, true, false, ◌||◌, none, some, List, [], ◌∷◌, ◌++◌, map, length, All, ◌≡◌, ◌≢◌, refl, sym,
  ap, ◌∙◌, if◌then◌else◌,
}
use netso.Common.Bytes.{Bytes, IsByte, str_eq, str_eq_ne}
use netso.Base64.{encode_public}
use netso.Base64.RoundTrip.{
  encode_public-nonempty, encode_public-IsAscii, decode_public-encode_public,
}
use netso.Registry
use netso.Registry.{Peer, Registry, list}
use netso.Registry.Lookup.{find}
use netso.HubClient.{ws_base, http_base, peers_url}
use netso.Agent.{dial_url}
use netso.Client.{pin, pin_key, pin-json, pubkey_of, connect_url}
use netso.Json.{json_text, json_peer}
use netso.Json.Text.{IsText, json_text-ascii}
use netso.Hub.{Hub, Event, handle_agent, handle_connect, handle_peers, new_hub, run}
use netso.Hub.Agent.{handle_agent-IsValid}
use netso.Hub.Safety.{IsTimed, reachable-IsValid}
use netso.Hub.Brokering.{agent_found, agent-connect}
use netso.Hub.Routes.{Answer, serve}
use netso.Dial.Served.{IsHubUrl, requests-served}

given_of :
    (network name : Bytes) → network ≢ [] → name ≢ [] → str_eq network [] || str_eq name [] ≡ false
given_of network name some_network some_name =
    let e = str_eq_ne network [] some_network in
    let f = str_eq_ne name [] some_name in rw (e, f) refl

module _ (network name public : Bytes) (h : Hub) (some_network : network ≢ [])
    (some_name : name ≢ []) where
  abbrev registered : Hub
  registered = (handle_agent network name (encode_public public) true h).0

  listed : handle_peers network registered ≡ some (map json_peer (list network registered.reg))
  unfolding handle_peers
  listed = rw (str_eq_ne network [] some_network) refl

  pinned :
      Registry.Lookup.IsValid registered.reg
      → All IsByte public
      → public ≢ []
      → IsText name
      → pin_key [] name (map json_peer (list network registered.reg)) ≡ some public
  unfolding pin_key
  pinned v bytes some_key text_name =
      let key = encode_public public in
      let given = given_of network name some_network some_name in
      let found = agent_found network name key h given in
      let keeps = json_text-ascii key (encode_public-IsAscii public bytes) in
      let text : pin [] name (map json_peer (list network registered.reg)) ≡ some key =
        pin-json network name registered.reg v text_name
        ∙ ap
            (λ r.
              let k = json_text (pubkey_of (Option.map (λ rec. rec.peer) r)) in
              if str_eq k [] then none else some k)
            found
        ∙ ap (λ k. if str_eq k [] then none else some k) keeps
        ∙ rw (str_eq_ne key [] (encode_public-nonempty public some_key)) refl in
      rw (text, pin_key) (decode_public-encode_public public bytes)

-- An agent dials the hub after any requests and ends of relays. A client that then asks the hub for
-- the peers of the network and is given no key pins exactly the agent's key, and when it dials the hub
-- for the agent's name, it is relayed to the agent's connection in a new session; whoever dials for the
-- name next finds nobody and is closed. All go by their URLs through the routes of the hub's server. The
-- network, the name and the key are some bytes, the name is text in UTF-8 without the replacement
-- character U+FFFD, by which JSON replaces what is not, the base URLs are a scheme and a host, the upgrades
-- succeed and no relay ends at the zero time.
pub agent-client-meet :
    (es : List Event) (now : ℕ) (webdir hub network name public : Bytes)
    → All IsTimed es
    → IsHubUrl (ws_base hub)
    → IsHubUrl (http_base hub)
    → All IsByte network
    → All IsByte name
    → All IsByte public
    → IsText name
    → network ≢ []
    → name ≢ []
    → public ≢ []
    → let h = run es new_hub in
      let h₁ = (serve webdir now (dial_url hub network name public) true h).0 in
      let h₂ = (serve webdir now (connect_url hub network name) true h₁).0 in
      let h₃ = (serve webdir now (connect_url hub network name) true h₂).0 in
      (peers : List Peer) × ((serve webdir now (peers_url hub network) true h₁).1
        ≡ Answer.listed (some peers))
      × (pin_key [] name peers ≡ some public)
      × (h₂.relays
          ≡ h.relays
            ++ record { client = suc h.next; agent = h.next; session = length h.audit.sessions }
              ∷ [])
      × (h₃.relays ≡ h₂.relays)
      × (h₃.closed ≡ suc (suc h.next) ∷ h₂.closed)
agent-client-meet es now webdir hub network name public t ws http network_bytes name_bytes
      public_bytes text_name some_network some_name some_key =
    let h = run es new_hub in
    let h₁ = registered network name public h some_network some_name in
    let (role, v) = reachable-IsValid es t in
    let (role₁, v₁) = handle_agent-IsValid network name (encode_public public) h role v true in
    let given = given_of network name some_network some_name in
    let served = λ (h' : Hub).
      requests-served webdir hub network name public now true h' ws http network_bytes name_bytes
        public_bytes in
    let dialled = ap (λ x. x.0) (served h).0 in
    let connect = λ (h' : Hub). (serve webdir now (connect_url hub network name) true h').0 in
    let first : connect (serve webdir now (dial_url hub network name public) true h).0
        ≡ (handle_connect now network name true h₁).0 =
      ap connect dialled ∙ ap (λ x. x.0) (served h₁).1 in
    let h₂ = (handle_connect now network name true h₁).0 in
    let next = ap connect first ∙ ap (λ x. x.0) (served h₂).1 in
    let met = agent-connect es now now network name (encode_public public) t given in
    (
      map json_peer (list network h₁.reg),
      ap (λ x. (serve webdir now (peers_url hub network) true x).1) dialled
          ∙ ap (λ x. x.1) (served h₁).2
          ∙ ap Answer.listed (listed network name public h some_network some_name),
      pinned network name public h some_network some_name v₁.reg public_bytes some_key text_name,
      ap (λ x. x.relays) first ∙ met.0,
      ap (λ x. x.relays) next ∙ met.1 ∙ ap (λ x. x.relays) (sym first),
      ap (λ x. x.closed) next
          ∙ met.2
          ∙ ap (λ x. suc (suc (run es new_hub).next) ∷ x.closed) (sym first),
    )
