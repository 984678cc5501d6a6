-- ===== src/HubClient.antt =====
-- internal/hubclient/hubclient.go: the base URLs of a hub from its address. `Peers` and the
-- commands append a path and a query to them.
pub mod Bases
mod Examples
use netso.Common.{ℕ, ◌==◌, not, List, ◌++◌, if◌then◌else◌, ◌||◌}
use netso.Common.Bytes.{Bytes, codes, has_prefix, trim_prefix}
use netso.Common.Result.{Result, err, ◌>>=◌}
use netso.Registry.{Peer}
use netso.Url.{query_escape}
use netso.Common.Trim.{trim_right, is_slash}

unfoldable pub ws_base : Bytes → Bytes
ws_base hub =
    if has_prefix hub (codes "wss://") || has_prefix hub (codes "ws://")
    then trim_right is_slash hub
    else if has_prefix hub (codes "https://")
    then codes "wss://" ++ trim_right is_slash (trim_prefix hub (codes "https://"))
    else if has_prefix hub (codes "http://")
    then codes "ws://" ++ trim_right is_slash (trim_prefix hub (codes "http://"))
    else codes "ws://" ++ trim_right is_slash hub

unfoldable pub http_base : Bytes → Bytes
http_base hub =
    if has_prefix hub (codes "https://") || has_prefix hub (codes "http://")
    then trim_right is_slash hub
    else if has_prefix hub (codes "wss://")
    then codes "https://" ++ trim_right is_slash (trim_prefix hub (codes "wss://"))
    else if has_prefix hub (codes "ws://")
    then codes "http://" ++ trim_right is_slash (trim_prefix hub (codes "ws://"))
    else codes "http://" ++ trim_right is_slash hub

-- The URL that `Peers` gets.
unfoldable pub peers_url : Bytes → Bytes → Bytes
peers_url hub network = http_base hub ++ (codes "/peers?network=" ++ query_escape network)

-- What `client.Get` answers: the status with what decoding the body gives.
pub record Response : Type 0 where
  pub status : ℕ
  pub body : Result Bytes (List Peer)

-- `Peers`, with the GET of the HTTP library as a parameter that passes the state of the world on.
unfoldable pub peers :
    {W : Type 0}
    → (Bytes → W → W × Result Bytes Response)
    → Bytes
    → Bytes
    → W
    → W × Result Bytes (List Peer)
peers get hub network w =
    let (w', answer) = get (peers_url hub network) w in
    (
      w',
      answer >>= λ resp. if not (resp.status == 200) then err (codes "hub /peers") else resp.body,
    )
