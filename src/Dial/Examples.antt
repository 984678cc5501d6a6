-- ===== src/Dial/Examples.antt =====
-- An agent and a client on a network whose name has to be escaped.
use netso.Common.{suc, true, some, List, [], ◌∷◌, ◌++◌, length, All, ◌≡◌, refl, arith}
use netso.Common.Bytes.{Bytes, IsByte, codes, str_eq, has_prefix, trim_prefix, drop_prefix}
use netso.Common.Trim.{trim_right}
use netso.Url.{query_escape, has_byte, before, after}
use netso.Url.Path.{path_of}
use netso.Registry.{Peer}
use netso.HubClient.{ws_base, http_base, peers_url}
use netso.Agent.{dial_url}
use netso.Client.{pin_key, connect_url}
use netso.Hub.{Event, new_hub, run}
use netso.Hub.Routes.{Answer, select, routes, serve, dispatch}
use netso.Json.{json_text, text_from, rune_size, has_replacement}
use netso.Json.Text.{IsText}
use netso.Dial.Served.{IsHubUrl}
use netso.Dial.Meeting.{agent-client-meet}

abbrev hub : Bytes
hub = codes "https://hub:8443/"

abbrev network : Bytes
network = codes "R&D = 1"

abbrev name : Bytes
name = codes "a+b"

abbrev key : Bytes
key = 7 ∷ 255 ∷ []

abbrev events : List Event
events = Event.agent network name [] true ∷ Event.connect 5 network name true ∷ Event.done 9 0 ∷ []

ws_base-IsHubUrl : IsHubUrl (ws_base hub)
unfolding ws_base has_prefix trim_prefix drop_prefix trim_right has_byte
ws_base-IsHubUrl = ((codes "wss", codes "hub:8443", refl, refl, refl), (refl, refl))

http_base-IsHubUrl : IsHubUrl (http_base hub)
unfolding http_base has_prefix trim_prefix drop_prefix trim_right has_byte
http_base-IsHubUrl = ((codes "https", codes "hub:8443", refl, refl, refl), (refl, refl))

network-IsByte : All IsByte network
network-IsByte = omega arith

name-IsByte : All IsByte name
name-IsByte = omega arith

name-IsText : IsText name
unfolding json_text text_from rune_size has_replacement has_prefix
name-IsText = (refl, refl)

key-IsByte : All IsByte key
key-IsByte = omega arith

agent-client-meet_example :
    let h = run events new_hub in
    let h₁ = (serve (codes "web") 10 (dial_url hub network name key) true h).0 in
    let h₂ = (serve (codes "web") 10 (connect_url hub network name) true h₁).0 in
    let h₃ = (serve (codes "web") 10 (connect_url hub network name) true h₂).0 in
    (peers : List Peer) × ((serve (codes "web") 10 (peers_url hub network) true h₁).1
      ≡ Answer.listed (some peers))
    × (pin_key [] name peers ≡ some key)
    × (h₂.relays
        ≡ h.relays
          ++ record { client = suc h.next; agent = h.next; session = length h.audit.sessions } ∷ [])
    × (h₃.relays ≡ h₂.relays)
    × (h₃.closed ≡ suc (suc h.next) ∷ h₂.closed)
agent-client-meet_example =
    agent-client-meet events 10 (codes "web") hub network name key
      (tt, (tt, ((λ e. ground arith), tt))) ws_base-IsHubUrl http_base-IsHubUrl network-IsByte
      name-IsByte key-IsByte name-IsText (λ e. ground arith) (λ e. ground arith) (λ e. ground arith)

test_escape : query_escape network ≡ codes "R%26D+%3D+1"
unfolding query_escape
test_escape = refl

-- What the routes leave to the browser client's files, and what to nobody.
abbrev page : Bytes
page = codes "http://hub:8443/app.js?v=2"

test_files :
    (serve (codes "web") 10 page true new_hub).1 ≡ Answer.from_files (codes "web") (codes "/app.js")
unfolding serve dispatch select routes has_prefix path_of before after str_eq
test_files = refl

test_not_found : (serve [] 10 page true new_hub).1 ≡ Answer.not_found
unfolding serve dispatch select routes has_prefix path_of before after str_eq
test_not_found = refl

test_healthz :
    (serve [] 10 (codes "http://10.0.0.7:8443/healthz") true new_hub).1
    ≡ Answer.text 200 (codes "ok")
unfolding serve dispatch select routes has_prefix path_of before after str_eq
test_healthz = refl
