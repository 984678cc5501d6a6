-- ===== src/Operator/Service.antt =====
-- operator/controllers.go: the deployment, the service and the status that a Hub resource asks for, with
-- what a Peer of that hub dials. As for a Peer, the callbacks of `CreateOrUpdate` are modelled. A
-- 64-bit number is its bit pattern.
use netso.Common.{
  ℕ, ◌%◌, ◌^◌, ltb, Bool, true, false, ◌&&◌, ◌||◌, List, [], ◌∷◌, ◌++◌, Option, none, some, map,
  All, ◌≡◌, refl, ap,
}
use netso.Common.Bytes.{Bytes, codes, str_eq, str_eq_refl}
use netso.Hub.{Hub}
use netso.Hub.Routes.{Answer, serve}
use netso.Hub.Flags.{Flags, default_flags, set_flag, parse_flags, decimal, IsOpen}
use netso.Digits.{to_digits}
use netso.Url.{has_byte}
use netso.Url.Parse.{has_byte-append}
use netso.Dial.Served.{IsHubUrl, healthz-served}
use netso.Operator.{
  Labels, Owner, Probe, http_probe, Container, Deployment, PeerResource, or_default, agent_command,
}

pub record Port : Type 0 where
  pub name : Bytes
  pub port : ℕ
  pub target : ℕ

pub record Service : Type 0 where
  pub owner : Option Owner
  pub labels : Labels
  pub selector : Labels
  pub ports : List Port

-- The fields that the reconciler reads of a Hub.
pub record HubResource : Type 0 where
  pub namespace : Bytes
  pub name : Bytes
  pub image : Bytes
  pub replicas : Option ℕ

unfoldable pub hub_labels : HubResource → Labels
hub_labels hub =
    (codes "app.kubernetes.io/name", codes "netso-hub")
    ∷ (codes "netso.trustsentinel.eu/hub", hub.name)
    ∷ []

-- `int32` of the number of replicas, one when there is none.
unfoldable pub hub_replicas : HubResource → ℕ
hub_replicas hub = elim hub.replicas [ none ↦ 1 | some n ↦ n % 2 ^ 32 ]

unfoldable pub hub_deployment : Bytes → HubResource → Deployment → Deployment
hub_deployment image hub dep = record dep {
  labels = hub_labels hub;
  replicas = hub_replicas hub;
  selector = hub_labels hub;
  template_labels = hub_labels hub;
  containers =
      record {
        name = codes "hub";
        image = or_default hub.image image;
        command = codes "netso-hub" ∷ codes "-addr" ∷ codes ":8443" ∷ [];
        ports = (codes "ws", 8443) ∷ [];
        probe = some (http_probe (codes "/healthz") 8443);
        mounts = [];
      }
      ∷ [];
}

unfoldable pub hub_service : HubResource → Service → Service
hub_service hub svc = record svc {
  labels = hub_labels hub;
  selector = hub_labels hub;
  ports = record { name = codes "ws"; port = 8443; target = 8443 } ∷ [];
}

-- The status: whether a replica is ready, and the address of the service.
unfoldable pub hub_status : HubResource → ℕ → Bool × Bytes
hub_status hub ready_replicas = (ltb 0 ready_replicas, hub.name ++ codes ":8443")

-- Whether labels have an entry, and whether a selector selects labels.
abbrev pub has_label : Bytes × Bytes → Labels → Bool
has_label e [] = false
has_label e (l ∷ ls) = let rest = has_label e ls in (str_eq e.0 l.0 && str_eq e.1 l.1) || rest

abbrev pub selects : Labels → Labels → Bool
selects [] labels = true
selects (e ∷ es) labels = let rest = selects es labels in has_label e labels && rest

-- The ports that a pod's containers open.
abbrev pub opened_ports : List Container → List ℕ
opened_ports [] = []
opened_ports (c ∷ cs) = map (λ p. p.1) c.ports ++ opened_ports cs

own_labels : (hub : HubResource) → selects (hub_labels hub) (hub_labels hub) ≡ true
unfolding hub_labels str_eq
own_labels hub = rw (str_eq_refl hub.name) refl

-- The base URL of a pod at a port.
abbrev pub pod_url : Bytes → ℕ → Bytes
pod_url ip port = codes "http://" ++ (ip ++ (codes ":" ++ decimal port))

-- A container runs the hub's server, by its command: it listens at every port that the container opens
-- and at the port of the readiness probe, and answers the probe with 200.
abbrev pub IsUp : Bytes → Hub → ℕ → Container → Type 0
IsUp ip h now c =
    (args : List Bytes) × (flags : Flags) × (probe : Probe) × (c.command ≡ codes "netso-hub" ∷ args)
    × (parse_flags args default_flags ≡ some flags)
    × All (λ p. IsOpen flags.addr p.1) c.ports
    × (c.probe ≡ some probe)
    × IsOpen flags.addr probe.port
    × ((serve flags.webdir now (pod_url ip probe.port ++ probe.path) false h).1
        ≡ Answer.text 200 (codes "ok"))

-- The address of a pod ends neither at a path nor at a query.
abbrev pub IsHost : Bytes → Type 0
IsHost ip = (has_byte b'/' ip ≡ false) × (has_byte b'?' ip ≡ false) × (has_byte b'#' ip ≡ false)

pod_url-IsHubUrl : (ip : Bytes) → IsHost ip → IsHubUrl (pod_url ip 8443)
unfolding decimal to_digits has_byte
pod_url-IsHubUrl ip (slash, query, fragment) =
    let port = codes ":8443" in
    (
      (codes "http", ip ++ port, refl, refl, has_byte-append b'/' ip port slash refl),
      (has_byte-append b'?' ip port query refl, has_byte-append b'#' ip port fragment refl),
    )

hub_container-IsUp :
    (image : Bytes) (hub : HubResource) (dep : Deployment) (ip : Bytes) (h : Hub) (now : ℕ)
    → IsHost ip
    → All (IsUp ip h now) (hub_deployment image hub dep).containers
unfolding hub_deployment parse_flags set_flag default_flags decimal to_digits str_eq
hub_container-IsUp image hub dep ip h now host =
    let url = pod_url-IsHubUrl ip host in
    (
      (
        codes "-addr" ∷ codes ":8443" ∷ [],
        record { addr = codes ":8443"; webdir = [] },
        http_probe (codes "/healthz") 8443,
        refl,
        refl,
        (refl, tt),
        refl,
        refl,
        ap (λ x. x.1) (healthz-served [] (pod_url ip 8443) now false h url),
      ),
      tt,
    )

-- A Hub gets a deployment and a service, whatever was there before: both select the pods that the
-- deployment makes by their labels; the service's ports lead to the ports that these pods open; the
-- command of a pod starts the server of cmd/netso-hub with flags by which it listens at these ports and
-- at the port of the readiness probe, which it answers with 200, whatever has become of its hub; the
-- address in the hub's status has the port of the service and is the one that the agent of a Peer of
-- this hub dials. Doing it again changes nothing. The address of the pod has no '/', '?' or '#'.
pub hub-reachable :
    (image : Bytes) (hub : HubResource) (peer : PeerResource) (dep : Deployment) (svc : Service)
    (ready now : ℕ) (ip : Bytes) (h : Hub)
    → IsHost ip
    → peer.hub_ref ≡ hub.name
    → let d = hub_deployment image hub dep in
      let s = hub_service hub svc in
      (selects s.selector d.template_labels ≡ true)
      × (selects d.selector d.template_labels ≡ true)
      × (map (λ p. p.target) s.ports ≡ opened_ports d.containers)
      × All (IsUp ip h now) d.containers
      × (map (λ p. hub.name ++ (codes ":" ++ decimal p.port)) s.ports
          ≡ (hub_status hub ready).1 ∷ [])
      × ((rest : List Bytes) × (agent_command peer
            ≡ codes "netso-agent"
              ∷ codes "-hub"
              ∷ (codes "http://" ++ (hub_status hub ready).1)
              ∷ rest))
      × (hub_deployment image hub d ≡ d)
      × (hub_service hub s ≡ s)
unfolding hub_deployment hub_service hub_labels hub_status agent_command decimal to_digits
hub-reachable image hub peer dep svc ready now ip h host same =
    let rest : List Bytes =
      codes "-network"
      ∷ or_default peer.network (codes "default")
      ∷ codes "-name"
      ∷ or_default peer.peer_name peer.name
      ∷ codes "-shell"
      ∷ or_default peer.shell (codes "/bin/sh")
      ∷ [] in
    (
      own_labels hub,
      own_labels hub,
      refl,
      hub_container-IsUp image hub dep ip h now host,
      refl,
      (
        rest,
        ap
            (λ ref.
              codes "netso-agent" ∷ codes "-hub" ∷ (codes "http://" ++ ref ++ codes ":8443") ∷ rest)
            same,
      ),
      refl,
      refl,
    )
