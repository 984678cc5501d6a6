-- ===== src/Operator/Examples.antt =====
-- A Hub, and a Peer of it, for the theorem on both.
use netso.Common.{◌≡◌, refl, map, All, List, [], ◌∷◌, ◌++◌, none, true}
use netso.Common.Bytes.{Bytes, codes}
use netso.Hub.{new_hub}
use netso.Hub.Flags.{decimal}
use netso.Operator.{Deployment, PeerResource, agent_command}
use netso.Operator.Service.{
  HubResource, Service, hub_deployment, hub_service, hub_status, selects, opened_ports, IsUp,
  IsHost, hub-reachable,
}

abbrev desk : PeerResource
desk = record {
  namespace = codes "netso";
  name = codes "desk";
  hub_ref = codes "hub";
  network = [];
  peer_name = [];
  shell = [];
  image = [];
  authorized_clients_secret = codes "clients";
}

abbrev hub : HubResource
hub = record { namespace = codes "netso"; name = codes "hub"; image = []; replicas = none }

abbrev no_deployment : Deployment
no_deployment = record {
  owner = none;
  labels = [];
  replicas = 0;
  selector = [];
  template_labels = [];
  containers = [];
  volumes = [];
  ready_replicas = 0;
}

abbrev no_service : Service
no_service = record { owner = none; labels = []; selector = []; ports = [] }

abbrev pod : Bytes
pod = codes "10.0.0.7"

pod-IsHost : IsHost pod
unfolding netso.Url.has_byte
pod-IsHost = (refl, refl, refl)

hub-reachable_example :
    let d = hub_deployment (codes "netso") hub no_deployment in
    let s = hub_service hub no_service in
    (selects s.selector d.template_labels ≡ true)
    × (selects d.selector d.template_labels ≡ true)
    × (map (λ p. p.target) s.ports ≡ opened_ports d.containers)
    × All (IsUp pod new_hub 1) d.containers
    × (map (λ p. hub.name ++ (codes ":" ++ decimal p.port)) s.ports ≡ (hub_status hub 1).1 ∷ [])
    × ((rest : List Bytes) × (agent_command desk
          ≡ codes "netso-agent" ∷ codes "-hub" ∷ (codes "http://" ++ (hub_status hub 1).1) ∷ rest))
    × (hub_deployment (codes "netso") hub d ≡ d)
    × (hub_service hub s ≡ s)
hub-reachable_example =
    hub-reachable (codes "netso") hub desk no_deployment no_service 1 1 pod new_hub pod-IsHost refl
