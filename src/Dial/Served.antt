-- ===== src/Dial/Served.antt =====
-- The URLs of the callers at the hub's server, through its routes.
use netso.Common.{ℕ, Bool, false, some, ◌∷◌, ◌++◌, All, ◌≡◌, refl, sym, ap, ◌∙◌, append_assoc}
use netso.Common.Bytes.{Bytes, IsByte, codes}
use netso.Base64.{encode_public}
use netso.Url.{has_byte}
use netso.Url.Parse.{has_byte-append}
use netso.Url.Path.{IsRoot, path_of, path_of-render, path_of-plain}
use netso.HubClient.{ws_base, http_base, peers_url}
use netso.Agent.{dial_url}
use netso.Client.{connect_url}
use netso.Hub.{Hub, Response, handle_agent, handle_connect, handle_peers}
use netso.Hub.Routes.{
  Route, Answer, select, routes, serve, dispatch, select-agent, select-connect, select-peers,
  select-healthz,
}
use netso.Dial.Arrival.{IsBase, requests-arrive}

-- The base URL of a hub: a scheme and a host, with no query and no fragment.
abbrev pub IsHubUrl : Bytes → Type 0
IsHubUrl base = IsRoot base × IsBase base

-- What a handler that upgrades its request has made of it.
abbrev pub answered : Hub × Response → Hub × Answer
answered (h, r) = (h, Answer.handled r)

path_at :
    (base path query : Bytes)
    → IsHubUrl base
    → has_byte b'?' (b'/' ∷ path) ≡ false
    → has_byte b'#' (b'/' ∷ path) ≡ false
    → path_of (base ++ ((b'/' ∷ path) ++ b'?' ∷ query)) ≡ b'/' ∷ path
path_at base path query (root, plain) q f =
    ap path_of (sym (append_assoc base (b'/' ∷ path) (b'?' ∷ query)))
    ∙ path_of-render base path root (has_byte-append b'?' base (b'/' ∷ path) plain.0 q)
        (has_byte-append b'#' base (b'/' ∷ path) plain.1 f) query

-- A request goes to the handler of the path of its URL.
serve-dispatch :
    (webdir : Bytes) (now : ℕ) (url path : Bytes) (route : Route) (upgrade : Bool) (h : Hub)
    → path_of url ≡ path
    → select path (routes webdir) ≡ some (path, route)
    → serve webdir now url upgrade h ≡ dispatch route now url upgrade h
unfolding serve
serve-dispatch webdir now url path route upgrade h at chosen = rw (at, chosen, serve) refl

-- The test of a hub by its /healthz is answered with 200, whatever has become of the hub.
pub healthz-served :
    (webdir base : Bytes) (now : ℕ) (upgrade : Bool) (h : Hub)
    → IsHubUrl base
    → serve webdir now (base ++ codes "/healthz") upgrade h ≡ (h, Answer.text 200 (codes "ok"))
unfolding dispatch
healthz-served webdir base now upgrade h (root, plain) =
    let q = has_byte-append b'?' base (codes "/healthz") plain.0 (unfold has_byte in refl) in
    let f = has_byte-append b'#' base (codes "/healthz") plain.1 (unfold has_byte in refl) in
    serve-dispatch webdir now (base ++ codes "/healthz") (codes "/healthz") Route.healthz upgrade h
      (path_of-plain base (codes "healthz") root q f) (select-healthz webdir)

-- The server of the hub passes the three URLs that its callers make to their handlers, which get what
-- the callers put into them, whether or not the server serves the browser client too: the agent's
-- network, name and the text of its key; the client's network and peer; the network to list. The
-- values are any bytes, and the base URLs are a scheme and a host.
pub requests-served :
    (webdir hub network name public : Bytes) (now : ℕ) (upgrade : Bool) (h : Hub)
    → IsHubUrl (ws_base hub)
    → IsHubUrl (http_base hub)
    → All IsByte network
    → All IsByte name
    → All IsByte public
    → (serve webdir now (dial_url hub network name public) upgrade h
        ≡ answered (handle_agent network name (encode_public public) upgrade h))
      × (serve webdir now (connect_url hub network name) upgrade h
          ≡ answered (handle_connect now network name upgrade h))
      × (serve webdir now (peers_url hub network) upgrade h
          ≡ (h, Answer.listed (handle_peers network h)))
unfolding dial_url connect_url peers_url dispatch
requests-served webdir hub network name public now upgrade h ws http network_bytes name_bytes
      public_bytes =
    let arrive =
      requests-arrive hub network name public now upgrade h ws.1 http.1 network_bytes name_bytes
        public_bytes in
    (
      serve-dispatch webdir now (dial_url hub network name public) (codes "/agent") Route.agent
            upgrade h
            (path_at (ws_base hub) (codes "agent") _ ws (unfold has_byte in refl)
              (unfold has_byte in refl))
            (select-agent webdir)
          ∙ ap answered arrive.0,
      serve-dispatch webdir now (connect_url hub network name) (codes "/connect") Route.connect
            upgrade h
            (path_at (ws_base hub) (codes "connect") _ ws (unfold has_byte in refl)
              (unfold has_byte in refl))
            (select-connect webdir)
          ∙ ap answered arrive.1,
      serve-dispatch webdir now (peers_url hub network) (codes "/peers") Route.peers upgrade h
            (path_at (http_base hub) (codes "peers") _ http (unfold has_byte in refl)
              (unfold has_byte in refl))
            (select-peers webdir)
          ∙ ap (λ l. (h, Answer.listed l)) arrive.2,
    )
