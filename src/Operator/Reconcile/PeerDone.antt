-- ===== src/Operator/Reconcile/PeerDone.antt =====
-- operator/controllers.go: what there is when a Peer has been reconciled without an error.
use netso.Common.{
  ltb, true, false, [], ◌≡◌, ◌≢◌, ◌⊎◌, refl, sym, ap, subst, ◌∙◌, Option, none, some, arith, inl,
  inr, Bool-cases, Option-cases,
}
use netso.Common.Bytes.{Bytes, str_eq, str_eq_sound, str_eq_complete}
use netso.Common.Result.{ok, Result-cases, bind-ok}
use netso.Operator.{Deployment, PeerResource, agent_deployment}
use netso.Operator.Peer.{IsMounted, agent_deployment-IsMounted}
use netso.Operator.Service.{Service}
use netso.Operator.Reconcile.{
  Key, Cluster, peer_owner, set_agent_deployment, reconcile_peer_found, reconcile_peer,
}
use netso.Operator.Reconcile.Owned.{View, deployment_owner, IsSame, IsCluster}
use netso.Operator.Reconcile.Done.{applied-done}

true_ne_false : true ≢ false
true_ne_false e = ground arith

some_ne_none : {A : Type 0} {a : A} → some a ≢ none
some_ne_none e = ground arith

-- The deployment of the agent is there, controlled by the Peer and as it asks, and every mount has a
-- volume.
abbrev pub HasAgent : Bytes → PeerResource → View Deployment → Type 0
HasAgent image peer deployments =
    (dep : Deployment) × (deployments (peer.namespace, peer.name) ≡ some dep)
    × (dep.owner ≡ some (peer_owner peer))
    × (agent_deployment image peer dep ≡ dep)
    × IsMounted dep

module _ {E W : Type 0} (cluster : Cluster E W) (image : Bytes)
    (deployments : W → Key → Option Deployment) (services : W → Key → Option Service)
    (c : IsCluster cluster deployments services) where
  pub set_agent-done :
      (peer : PeerResource) (old made : Deployment)
      → set_agent_deployment cluster image peer old ≡ ok made
      → (made.owner ≡ some (peer_owner peer))
        × (agent_deployment image peer made ≡ made)
        × IsMounted made
  unfolding agent_deployment
  set_agent-done peer old made e =
      let (r, set, back) = bind-ok (cluster.set_controller (peer_owner peer) old.owner) _ made e in
      let plain = agent_deployment image peer old in
      let same : record plain { owner = some r } ≡ made = cc in
      let settled : agent_deployment image peer (record plain { owner = some r })
          ≡ record plain { owner = some r } =
        elim (Bool-cases (str_eq peer.authorized_clients_secret [])) [
          | inl no_secret ↦ rw no_secret refl
          | inr secret ↦ rw secret refl
        ] in
      (
        sym (ap deployment_owner same) ∙ ap some (c.told (peer_owner peer) r old.owner set),
        subst (λ d. agent_deployment image peer d ≡ d) same settled,
        subst IsMounted same (agent_deployment-IsMounted image peer old).0,
      )

  peer_found-done :
      (peer : PeerResource) (w : W)
      → (reconcile_peer_found cluster image peer w).1 ≡ none
      → HasAgent image peer (deployments (reconcile_peer_found cluster image peer w).0)
  unfolding reconcile_peer_found
  peer_found-done peer w nil =
      let key : Key = (peer.namespace, peer.name) in
      let f = set_agent_deployment cluster image peer in
      let r = cluster.apply_deployment key f w in
      let (applied, _) = c.deployment key f w in
      elim (Result-cases r.1) [
        | inl (e, failed) ↦ absurd (some_ne_none (rw (failed, reconcile_peer_found) at nil))
        | inr (dep, done) ↦
            let (old, set, written) =
              applied-done cluster image deployments services c deployment_owner (deployments w)
                (deployments r.0) key f r.1 dep applied done in
            let (owned, asked, mounted) = set_agent-done peer old dep set in
            let (same, _) = c.peer_status peer (ltb 0 dep.ready_replicas) r.0 in
            rw (done, reconcile_peer_found) (dep, same key ∙ written, owned, asked, mounted)
      ]

  -- Reconciling a Peer that is there and has a hub has an error, or leaves a deployment of the Peer's
  -- name that the Peer controls and that is as it asks: asking again would not change it, and every
  -- mount of its container names a volume of the pod. A Peer without a hub has no error and nothing is
  -- written. The calls of the Kubernetes API do what they are documented to do.
  pub reconcile_peer-done :
      (req : Key) (peer : PeerResource) (w : W)
      → (cluster.get_peer req w).1 ≡ ok peer
      → let r = reconcile_peer cluster image req w in
        ((peer.hub_ref ≡ []) × (r.1 ≡ none) × IsSame cluster deployments services w r.0)
        ⊎ ((peer.hub_ref ≢ [])
            × (((e : E) × (r.1 ≡ some e)) ⊎ HasAgent image peer (deployments r.0)))
  unfolding reconcile_peer
  reconcile_peer-done req peer w found =
      let w' = (cluster.get_peer req w).0 in
      elim (Bool-cases (str_eq peer.hub_ref [])) [
        | inl no_hub ↦
            rw (found, no_hub, reconcile_peer)
              (inl (str_eq_sound peer.hub_ref [] no_hub, refl, c.get_peer req w))
        | inr given ↦
            rw (found, given, reconcile_peer)
              (inr (
                (λ e. absurd (true_ne_false (sym (str_eq_complete peer.hub_ref [] e) ∙ given))),
                elim (Option-cases (reconcile_peer_found cluster image peer w').1) [
                  | inl nil ↦ inr (peer_found-done peer w' nil)
                  | inr (e, failed) ↦ inl (e, failed)
                ],
              ))
      ]
