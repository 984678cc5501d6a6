-- ===== src/Operator/Reconcile/Along.antt =====
-- operator/controllers.go: the calls of a `Reconcile` one after the other, for a relation between the
-- worlds before and after each.
use netso.Common.{ltb, Option, [], inl, inr, Bool-cases}
use netso.Common.Bytes.{Bytes, str_eq}
use netso.Common.Result.{Result-cases}
use netso.Operator.{Deployment, PeerResource}
use netso.Operator.Service.{Service, HubResource, hub_status}
use netso.Operator.Reconcile.{
  Key, Cluster, set_hub_deployment, set_hub_service, set_agent_deployment, finish_hub,
  reconcile_hub_found, reconcile_hub, reconcile_peer_found, reconcile_peer,
}
use netso.Operator.Reconcile.Owned.{IsSame, IsCluster}

-- The relation `R` of a world to a later one.
module _ {E W : Type 0} (cluster : Cluster E W) (image : Bytes)
    (deployments : W → Key → Option Deployment) (services : W → Key → Option Service)
    (c : IsCluster cluster deployments services) (R : W → W → Type 0)
    (same : (w w' : W) → IsSame cluster deployments services w w' → R w w')
    (trans : (u v w : W) → R u v → R v w → R u w) where
  module _
      (deployment : (hub : HubResource) (w : W)
        → let f = set_hub_deployment cluster image hub in
          R w (cluster.apply_deployment (hub.namespace, hub.name) f w).0)
      (service : (hub : HubResource) (w : W)
        → let f = set_hub_service cluster image hub in
          R w (cluster.apply_service (hub.namespace, hub.name) f w).0) where
    finish_hub-along :
        (hub : HubResource) (dep : Deployment) (w : W) → R w (finish_hub cluster image hub dep w).0
    unfolding finish_hub
    finish_hub-along hub dep w =
        let key : Key = (hub.namespace, hub.name) in
        let r = cluster.apply_service key (set_hub_service cluster image hub) w in
        let first = service hub w in
        elim (Result-cases r.1) [
          | inl (e, failed) ↦ rw (failed, finish_hub) first
          | inr (svc, done) ↦
              rw (done, finish_hub)
                (trans w r.0 _ first
                  (same r.0 _ (c.hub_status hub (hub_status hub dep.ready_replicas) r.0)))
        ]

    pub reconcile_hub-along : (req : Key) (w : W) → R w (reconcile_hub cluster image req w).0
    unfolding reconcile_hub reconcile_hub_found
    reconcile_hub-along req w =
        let got = cluster.get_hub req w in
        let first = same w got.0 (c.get_hub req w) in
        elim (Result-cases got.1) [
          | inl (e, failed) ↦ rw (failed, reconcile_hub) first
          | inr (hub, found) ↦
              let key : Key = (hub.namespace, hub.name) in
              let r = cluster.apply_deployment key (set_hub_deployment cluster image hub) got.0 in
              let second = trans w got.0 r.0 first (deployment hub got.0) in
              elim (Result-cases r.1) [
                | inl (e, failed) ↦ rw (found, failed, reconcile_hub, reconcile_hub_found) second
                | inr (dep, done) ↦
                    rw (found, done, reconcile_hub, reconcile_hub_found)
                      (trans w r.0 _ second (finish_hub-along hub dep r.0))
              ]
        ]

  pub reconcile_peer-along :
      ((peer : PeerResource) (w : W)
        → let f = set_agent_deployment cluster image peer in
          R w (cluster.apply_deployment (peer.namespace, peer.name) f w).0)
      → (req : Key) (w : W) → R w (reconcile_peer cluster image req w).0
  unfolding reconcile_peer reconcile_peer_found
  reconcile_peer-along deployment req w =
      let got = cluster.get_peer req w in
      let first = same w got.0 (c.get_peer req w) in
      elim (Result-cases got.1) [
        | inl (e, failed) ↦ rw (failed, reconcile_peer) first
        | inr (peer, found) ↦ elim (Bool-cases (str_eq peer.hub_ref [])) [
          | inl no_hub ↦ rw (found, no_hub, reconcile_peer) first
          | inr given ↦
              let key : Key = (peer.namespace, peer.name) in
              let r =
                cluster.apply_deployment key (set_agent_deployment cluster image peer) got.0 in
              let second = trans w got.0 r.0 first (deployment peer got.0) in
              elim (Result-cases r.1) [
                | inl (e, failed) ↦
                    rw (found, given, failed, reconcile_peer, reconcile_peer_found) second
                | inr (dep, done) ↦
                    rw (found, given, done, reconcile_peer, reconcile_peer_found)
                      (trans w r.0 _ second
                        (same r.0 _ (c.peer_status peer (ltb 0 dep.ready_replicas) r.0)))
              ]
        ]
      ]
