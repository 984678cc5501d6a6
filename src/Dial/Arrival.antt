-- ===== src/Dial/Arrival.antt =====
-- Every request reaches its handler with the values that the caller put into the URL.
use netso.Common.{ℕ, Bool, false, [], ◌∷◌, ◌++◌, All, ◌≡◌, refl, sym, ap, ◌∙◌, arith, append_assoc}
use netso.Common.Bytes.{Bytes, IsByte, codes, str_eq}
use netso.Base64.{encode_public}
use netso.Base64.RoundTrip.{encode_public-IsByte}
use netso.Url.{query_of, has_byte, get}
use netso.Url.Parse.{IsKey, query_of-render, has_byte-append}
use netso.HubClient.{ws_base, http_base, peers_url}
use netso.Agent.{dial_url}
use netso.Client.{connect_url}
use netso.Hub.{
  Hub, handle_agent, handle_connect, handle_peers, agent_request, connect_request, peers_request,
}

-- A base URL has no query and no fragment of its own.
abbrev pub IsBase : Bytes → Type 0
IsBase base = (has_byte b'?' base ≡ false) × (has_byte b'#' base ≡ false)

network-IsKey : IsKey (codes "network")
network-IsKey = ((λ e. ground arith), ground arith)

name-IsKey : IsKey (codes "name")
name-IsKey = ((λ e. ground arith), ground arith)

pubkey-IsKey : IsKey (codes "pubkey")
pubkey-IsKey = ((λ e. ground arith), ground arith)

peer-IsKey : IsKey (codes "peer")
peer-IsKey = ((λ e. ground arith), ground arith)

module _ (hub : Bytes) (base : IsBase (ws_base hub)) (network : Bytes)
    (bytes : All IsByte network) where
  dial_url-query :
      (name public : Bytes)
      → All IsByte name
      → All IsByte public
      → query_of (dial_url hub network name public)
        ≡ (codes "network", network)
          ∷ (codes "name", name)
          ∷ (codes "pubkey", encode_public public)
          ∷ []
  unfolding dial_url
  dial_url-query name public name_bytes public_bytes =
      ap query_of (sym (append_assoc (ws_base hub) (codes "/agent") _))
      ∙ query_of-render (ws_base hub ++ codes "/agent") (codes "network", network)
          ((codes "name", name) ∷ (codes "pubkey", encode_public public) ∷ [])
          (has_byte-append b'#' (ws_base hub) (codes "/agent") base.1 (unfold has_byte in refl))
          (has_byte-append b'?' (ws_base hub) (codes "/agent") base.0 (unfold has_byte in refl))
          (network-IsKey, bytes)
          ((name-IsKey, name_bytes), ((pubkey-IsKey, encode_public-IsByte public public_bytes), tt))

  connect_url-query :
      (peer : Bytes)
      → All IsByte peer
      → query_of (connect_url hub network peer)
        ≡ (codes "network", network) ∷ (codes "peer", peer) ∷ []
  unfolding connect_url
  connect_url-query peer peer_bytes =
      ap query_of (sym (append_assoc (ws_base hub) (codes "/connect") _))
      ∙ query_of-render (ws_base hub ++ codes "/connect") (codes "network", network)
          ((codes "peer", peer) ∷ [])
          (has_byte-append b'#' (ws_base hub) (codes "/connect") base.1 (unfold has_byte in refl))
          (has_byte-append b'?' (ws_base hub) (codes "/connect") base.0 (unfold has_byte in refl))
          (network-IsKey, bytes) ((peer-IsKey, peer_bytes), tt)

peers_url-query :
    (hub network : Bytes)
    → IsBase (http_base hub)
    → All IsByte network
    → query_of (peers_url hub network) ≡ (codes "network", network) ∷ []
unfolding peers_url
peers_url-query hub network base bytes =
    ap query_of (sym (append_assoc (http_base hub) (codes "/peers") _))
    ∙ query_of-render (http_base hub ++ codes "/peers") (codes "network", network) []
        (has_byte-append b'#' (http_base hub) (codes "/peers") base.1 (unfold has_byte in refl))
        (has_byte-append b'?' (http_base hub) (codes "/peers") base.0 (unfold has_byte in refl))
        (network-IsKey, bytes) tt

-- What an agent, a client and a discovery put into their URLs is what the hub's handlers get: the
-- agent's network, name and the text of its key; the client's network and peer; the network to list.
-- The values are any bytes, and the base URLs have no query and no fragment.
pub requests-arrive :
    (hub network name public : Bytes) (now : ℕ) (upgrade : Bool) (h : Hub)
    → IsBase (ws_base hub)
    → IsBase (http_base hub)
    → All IsByte network
    → All IsByte name
    → All IsByte public
    → (agent_request (dial_url hub network name public) upgrade h
        ≡ handle_agent network name (encode_public public) upgrade h)
      × (connect_request now (connect_url hub network name) upgrade h
          ≡ handle_connect now network name upgrade h)
      × (peers_request (peers_url hub network) h ≡ handle_peers network h)
unfolding agent_request connect_request peers_request get str_eq
requests-arrive hub network name public now upgrade h ws http network_bytes name_bytes
      public_bytes =
    (
      rw (dial_url-query hub ws network network_bytes name public name_bytes public_bytes) refl,
      rw (connect_url-query hub ws network network_bytes name name_bytes) refl,
      rw (peers_url-query hub network http network_bytes) refl,
    )
