-- ===== src/Operator/Manager.antt =====
-- operator/main.go: the image that the operator deploys, the two controllers, and `main`. The flag and
-- the environment are arguments, and the calls of client-go and of controller-runtime are parameters
-- with the state of the world passed on.
pub mod Watched
pub mod Started
mod Examples
use netso.Common.{Bool, false, not, ◌||◌, Option, none, some, List, [], ◌∷◌, if◌then◌else◌}
use netso.Common.Bytes.{Bytes, codes, str_eq}
use netso.Common.Result.{Result, ok, err}
use netso.Operator.Reconcile.{Key, Cluster, reconcile_hub, reconcile_peer}

-- What a kind of resource goes by.
pub record GroupVersionKind : Type 0 where
  pub group : Bytes
  pub version : Bytes
  pub kind : Bytes

abbrev pub group : Bytes
group = codes "netso.trustsentinel.eu"

abbrev pub version : Bytes
version = codes "v1alpha1"

abbrev pub hub_gvk : GroupVersionKind
hub_gvk = record { group = group; version = version; kind = codes "Hub" }

abbrev pub peer_gvk : GroupVersionKind
peer_gvk = record { group = group; version = version; kind = codes "Peer" }

-- The kinds of workload that a controller may own.
pub data Workload : Type 0 where
  deployment : Workload
  service : Workload

-- A reconciler, with its image.
pub data Reconciler : Type 0 where
  of_hubs : Bytes → Reconciler
  of_peers : Bytes → Reconciler

-- What the builder of a controller was told: `For`, `Owns` and `Complete`.
pub record Controller : Type 0 where
  pub for : GroupVersionKind
  pub owns : List Workload
  pub reconciler : Reconciler

unfoldable pub hub_controller : Bytes → Controller
hub_controller image = record {
  for = hub_gvk;
  owns = Workload.deployment ∷ Workload.service ∷ [];
  reconciler = Reconciler.of_hubs image;
}

unfoldable pub peer_controller : Bytes → Controller
peer_controller image = record {
  for = peer_gvk;
  owns = Workload.deployment ∷ [];
  reconciler = Reconciler.of_peers image;
}

-- The `Reconcile` of a reconciler.
abbrev pub reconcile : {E W : Type 0} → Cluster E W → Reconciler → Key → W → W × Option E
reconcile cluster (Reconciler.of_hubs image) = reconcile_hub cluster image
reconcile cluster (Reconciler.of_peers image) = reconcile_peer cluster image

unfoldable pub env_or : (Bytes → Bytes) → Bytes → Bytes → Bytes
env_or getenv key def = if not (str_eq (getenv key) []) then getenv key else def

-- The flag as it is given, or its default.
unfoldable pub image_of : (Bytes → Bytes) → Option Bytes → Bytes
image_of getenv none = env_or getenv (codes "NETSO_IMAGE") (codes "netso:local")
image_of getenv (some image) = image

-- The calls of `fatal`.
pub data Fatal {ℓ} (E : Type ℓ) : Type ℓ where
  scheme : E → Fatal E
  manager : E → Fatal E
  a_controller : Bytes → E → Fatal E
  exited : E → Fatal E

-- `start` is the whole run of the manager.
pub record Runtime (E W : Type 0) : Type 0 where
  pub add_to_scheme : W → W × Option E
  pub new_manager : W → W × Option E
  pub complete : Controller → W → W × Option E
  pub start : W → W × Option E

abbrev pub fatal_if : {E : Type 0} → (E → Fatal E) → Option E → Option (Fatal E)
fatal_if f none = none
fatal_if f (some e) = some (f e)

module _ {E W : Type 0} (runtime : Runtime E W) where
  -- One call, of which an error is fatal, and what follows it.
  abbrev pub call :
      (W → W × Option E) → (E → Fatal E) → (W → W × Option (Fatal E)) → W → W × Option (Fatal E)
  call act failed next w =
      let (w', e) = act w in elim e [ some e ↦ (w', some (failed e)) | none ↦ next w' ]

  abbrev pub start_manager : W → W × Option (Fatal E)
  start_manager w = let (w', e) = runtime.start w in (w', fatal_if Fatal.exited e)

  -- `main`, up to its return or the end of the process.
  unfoldable pub main : (Bytes → Bytes) → Option Bytes → W → W × Option (Fatal E)
  main getenv flag =
      let image = image_of getenv flag in
      call runtime.add_to_scheme Fatal.scheme (
        call runtime.new_manager Fatal.manager (
          call (runtime.complete (hub_controller image)) (Fatal.a_controller (codes "hub")) (
            call (runtime.complete (peer_controller image)) (Fatal.a_controller (codes "peer"))
              start_manager)))
