-- ===== src/Operator/Reconcile.antt =====
-- operator/controllers.go: both `Reconcile`s, over the calls of the Kubernetes API that they make: the
-- reads of the resources, `CreateOrUpdate`, `SetControllerReference`, `IgnoreNotFound` and the updates
-- of the status are parameters, with the state of the cluster passed on.
pub mod Owned
pub mod Along
pub mod Kept
pub mod Done
pub mod PeerDone
pub mod Examples
use netso.Common.{ltb, Bool, Option, none, some, List, [], ◌∷◌, if◌then◌else◌}
use netso.Common.Bytes.{Bytes, codes, str_eq}
use netso.Common.Result.{Result, ok, err, ◌>>=◌}
use netso.Operator.{Owner, Deployment, PeerResource, agent_deployment}
use netso.Operator.Service.{Service, HubResource, hub_deployment, hub_service, hub_status}

-- A namespace and a name.
abbrev pub Key : Type 0
Key = Bytes × Bytes

-- `apply_deployment` and `apply_service` are `CreateOrUpdate`, with the callback that it applies to the
-- object that is there or to an empty one; an object that the callback fails on is not written.
pub record Cluster (E W : Type 0) : Type 0 where
  pub get_hub : Key → W → W × Result E HubResource
  pub get_peer : Key → W → W × Result E PeerResource
  pub ignore_not_found : E → Option E
  pub apply_deployment : Key → (Deployment → Result E Deployment) → W → W × Result E Deployment
  pub apply_service : Key → (Service → Result E Service) → W → W × Result E Service
  pub set_controller : Owner → Option Owner → Result E Owner
  pub update_hub_status : HubResource → Bool × Bytes → W → W × Option E
  pub update_peer_status : PeerResource → Bool → W → W × Option E

abbrev pub hub_owner : HubResource → Owner
hub_owner hub = record { kind = codes "Hub"; name = hub.name }

abbrev pub peer_owner : PeerResource → Owner
peer_owner peer = record { kind = codes "Peer"; name = peer.name }

-- The requests that the manager passes to the two controllers.
pub data Request : Type 0 where
  a_hub : Key → Request
  a_peer : Key → Request

module _ {E W : Type 0} (cluster : Cluster E W) (image : Bytes) where
  -- The callbacks, which end with the owner.
  abbrev pub set_hub_deployment : HubResource → Deployment → Result E Deployment
  set_hub_deployment hub dep =
      let made = hub_deployment image hub dep in
      cluster.set_controller (hub_owner hub) made.owner >>= λ owner.
      ok (record made { owner = some owner })

  abbrev pub set_hub_service : HubResource → Service → Result E Service
  set_hub_service hub svc =
      let made = hub_service hub svc in
      cluster.set_controller (hub_owner hub) made.owner >>= λ owner.
      ok (record made { owner = some owner })

  abbrev pub set_agent_deployment : PeerResource → Deployment → Result E Deployment
  set_agent_deployment peer dep =
      let made = agent_deployment image peer dep in
      cluster.set_controller (peer_owner peer) made.owner >>= λ owner.
      ok (record made { owner = some owner })

  -- What follows the deployment of a hub, and its service.
  unfoldable pub finish_hub : HubResource → Deployment → W → W × Option E
  finish_hub hub dep w =
      let (w', svc) = cluster.apply_service (hub.namespace, hub.name) (set_hub_service hub) w in
      elim svc [
        | err e ↦ (w', some e)
        | ok svc ↦ cluster.update_hub_status hub (hub_status hub dep.ready_replicas) w'
      ]

  unfoldable pub reconcile_hub_found : HubResource → W → W × Option E
  reconcile_hub_found hub w =
      let (w', dep) =
        cluster.apply_deployment (hub.namespace, hub.name) (set_hub_deployment hub) w in
      elim dep [ err e ↦ (w', some e) | ok dep ↦ finish_hub hub dep w' ]

  unfoldable pub reconcile_hub : Key → W → W × Option E
  reconcile_hub req w =
      let (w', hub) = cluster.get_hub req w in
      elim hub [ err e ↦ (w', cluster.ignore_not_found e) | ok hub ↦ reconcile_hub_found hub w' ]

  unfoldable pub reconcile_peer_found : PeerResource → W → W × Option E
  reconcile_peer_found peer w =
      let (w', dep) =
        cluster.apply_deployment (peer.namespace, peer.name) (set_agent_deployment peer) w in
      elim dep [
        | err e ↦ (w', some e)
        | ok dep ↦ cluster.update_peer_status peer (ltb 0 dep.ready_replicas) w'
      ]

  -- A Peer without a hub is left alone.
  unfoldable pub reconcile_peer : Key → W → W × Option E
  reconcile_peer req w =
      let (w', peer) = cluster.get_peer req w in
      elim peer [
        | err e ↦ (w', cluster.ignore_not_found e)
        | ok peer ↦ if str_eq peer.hub_ref [] then (w', none) else reconcile_peer_found peer w'
      ]

  unfoldable pub run : List Request → W → W
  run [] w = w
  run (Request.a_hub req ∷ reqs) w = run reqs (reconcile_hub req w).0
  run (Request.a_peer req ∷ reqs) w = run reqs (reconcile_peer req w).0
