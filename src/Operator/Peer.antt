-- ===== src/Operator/Peer.antt =====
-- operator/controllers.go: what an agent's deployment guarantees, whatever deployment was there.
use netso.Common.{◌≡◌, ◌⊎◌, refl, List, [], ◌∷◌, All, inl, inr, Bool-cases}
use netso.Common.Bytes.{Bytes, str_eq}
use netso.Operator.{Volume, Deployment, PeerResource, agent_container, agent_deployment}

-- One of the volumes has the name.
abbrev pub IsVolume : List Volume → Bytes → Type 0
IsVolume [] name = ⊥
IsVolume (v ∷ volumes) name = (v.name ≡ name) ⊎ IsVolume volumes name

-- Every mount of a container names a volume of its pod.
abbrev pub IsMounted : Deployment → Type 0
IsMounted dep = All (λ c. All (λ m. IsVolume dep.volumes m.name) c.mounts) dep.containers

-- A Peer gets a deployment, whatever deployment was there: every mount names a volume of the pod, and
-- reconciling again changes nothing.
pub agent_deployment-IsMounted :
    (image : Bytes) (peer : PeerResource) (dep : Deployment)
    → let made = agent_deployment image peer dep in
      IsMounted made × (agent_deployment image peer made ≡ made)
unfolding agent_deployment agent_container
agent_deployment-IsMounted image peer dep =
    elim (Bool-cases (str_eq peer.authorized_clients_secret [])) [
      | inl no_secret ↦ rw no_secret ((tt, tt), refl)
      | inr secret ↦ rw secret (((inl refl, tt), tt), refl)
    ]
