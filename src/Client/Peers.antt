-- ===== src/Client/Peers.antt =====
-- cmd/netso/main.go: `netso peers`. The GET of the HTTP library is a parameter, as in HubClient, and so
-- are the count of the runes of a text, by which the library pads it, and its quotation by `%q`.
pub mod Table
mod Examples
use netso.Common.{ℕ, ◌-◌, List, [], ◌∷◌, ◌++◌, replicate}
use netso.Common.Bytes.{Bytes, codes}
use netso.Common.Result.{Result, ok, ◌>>=◌}
use netso.Registry.{Peer}
use netso.HubClient
use netso.HubClient.{Response}

module _ (runes : Bytes → ℕ) (quote : Bytes → Bytes) where
  -- `%-20s`
  abbrev pub pad : Bytes → Bytes
  pad s = s ++ replicate (20 - runes s) 32

  -- `"%-20s %s" and the end of the line`
  abbrev pub row : Bytes → Bytes → Bytes
  row name pubkey = pad name ++ (32 ∷ (pubkey ++ 10 ∷ []))

  abbrev pub rows : List Peer → Bytes
  rows [] = []
  rows (p ∷ peers) = row p.name p.pubkey ++ rows peers

  -- What is printed for the peers that the hub lists.
  abbrev pub listing : Bytes → List Peer → Bytes
  listing network [] = codes "no peers on network " ++ (quote network ++ 10 ∷ [])
  listing network (p ∷ peers) = row (codes "NAME") (codes "PUBKEY") ++ rows (p ∷ peers)

  -- The error is fatal.
  unfoldable pub cmd_peers :
      {W : Type 0}
      → (Bytes → W → W × Result Bytes Response)
      → Bytes
      → Bytes
      → W
      → W × Result Bytes Bytes
  cmd_peers get hub network w =
      let (w', peers) = HubClient.peers get hub network w in
      (w', peers >>= λ peers. ok (listing network peers))
