-- ===== src/Operator/Reconcile/Examples.antt =====
-- A cluster that keeps its objects by their keys, with a Hub and a Peer of one name.
use netso.Common.{
  ◌≡◌, ◌≢◌, ◌⊎◌, refl, ap, ◌∙◌, true, ◌&&◌, Option, none, some, List, [], ◌∷◌, inl, inr,
  if◌then◌else◌, Bool-cases, Option-cases, arith,
}
use mathlib.Core.Path.{ap₂}
use netso.Common.Bytes.{Bytes, codes, str_eq, str_eq_refl, str_eq_both}
use netso.Common.Result.{Result, ok, err, Result-cases}
use netso.Operator.{Owner, Deployment, PeerResource}
use netso.Operator.Service.{Service, HubResource}
use netso.Operator.Reconcile.{
  Key, Cluster, Request, reconcile_hub, reconcile_hub_found, reconcile_peer, reconcile_peer_found,
  finish_hub, run,
}
use netso.Operator.Reconcile.Owned.{
  View, key_eq, deployment_owner, service_owner, IsApplied, IsSame, IsCluster,
}
use netso.Operator.Reconcile.Kept.{Deployed, run-Deployed}
use netso.Operator.Reconcile.PeerDone.{HasAgent, reconcile_peer-done}
use netso.Operator.Reconcile.Done.{HasService, HasDeployment, reconcile_hub-done}

abbrev or_empty {ℓ} : {A : Type ℓ} → Option A → A → A
or_empty none empty = empty
or_empty (some a) empty = a

abbrev put {ℓ} : {A : Type ℓ} → Key → A → (Key → Option A) → Key → Option A
put key a view k = if key_eq k key then some a else view k

-- An object that the callback fails on is not written.
abbrev written : {E A : Type 0} → Key → Result E A → View A → View A × Result E A
written key (err e) view = (view, err e)
written key (ok a) view = (put key a view, ok a)

same_key : (key : Key) → key_eq key key ≡ true
same_key key = ground (arith, str_eq_refl key.0, str_eq_refl key.1)

written-IsApplied :
    {E A : Type 0} (owner : A → Option Owner) (key : Key) (f : A → Result E A) (view : View A)
    (empty : A)
    → owner empty ≡ none
    → let r = written key (f (or_empty (view key) empty)) view in IsApplied owner view r.0 key f r.1
written-IsApplied owner key f view empty nobody =
    let old = or_empty (view key) empty in
    elim (Result-cases (f old)) [
      | inl (e, failed) ↦ rw failed (inl (e, refl, λ k. refl))
      | inr (made, done) ↦
          let found : (view key ≡ some old) ⊎ ((view key ≡ none) × (owner old ≡ none)) =
            elim (Option-cases (view key)) [
              | inl nothing ↦ inr (nothing, rw nothing nobody)
              | inr (a, there) ↦ inl (there ∙ ap some (rw there refl))
            ] in
          rw done
            (inr (old, made, found, done, refl, rw (same_key key) refl, λ k other. rw other refl))
    ]

pub record World : Type 0 where
  pub deployments : View Deployment
  pub services : View Service

abbrev no_deployment : Deployment
no_deployment = record {
  owner = none;
  labels = [];
  replicas = 0;
  selector = [];
  template_labels = [];
  containers = [];
  volumes = [];
  ready_replicas = 0;
}

abbrev no_service : Service
no_service = record { owner = none; labels = []; selector = []; ports = [] }

abbrev office : HubResource
office = record { namespace = codes "netso"; name = codes "office"; image = []; replicas = none }

-- A Peer of the Hub's own name.
abbrev desk : PeerResource
desk = record {
  namespace = codes "netso";
  name = codes "office";
  hub_ref = codes "office";
  network = [];
  peer_name = [];
  shell = [];
  image = [];
  authorized_clients_secret = [];
}

abbrev adopt : Owner → Option Owner → Result Bytes Owner
adopt o none = ok o
adopt o (some old) =
    if str_eq old.kind o.kind && str_eq old.name o.name then ok o else err (codes "already owned")

abbrev pub cluster : Cluster Bytes World
cluster = record {
  get_hub = λ req w. (w, ok office);
  get_peer = λ req w. (w, ok desk);
  ignore_not_found = some;
  apply_deployment = λ key f w.
      let (view, out) =
        written key (f (or_empty (w.deployments key) no_deployment)) w.deployments in
      (record w { deployments = view }, out);
  apply_service = λ key f w.
      let (view, out) = written key (f (or_empty (w.services key) no_service)) w.services in
      (record w { services = view }, out);
  set_controller = adopt;
  update_hub_status = λ hub st w. (w, none);
  update_peer_status = λ peer ready w. (w, none);
}

ok_unique : {E A : Type 0} (a b : A) (r : Result E A) → r ≡ ok a → r ≡ ok b → a ≡ b
ok_unique a b r e e' = cc (e, e')

adopt_told : (o o' : Owner) (old : Option Owner) → adopt o old ≡ ok o' → o' ≡ o
adopt_told o o' none e = cc
adopt_told o o' (some old) e =
    elim (Bool-cases (str_eq old.kind o.kind && str_eq old.name o.name)) [
      | inl same ↦ ok_unique o' o (adopt o (some old)) e (rw same refl)
      | inr other ↦
          let e' : err (codes "already owned") ≡ ok o' = rw other at e in absurd (ground arith)
    ]

adopt_refused : (o o' old : Owner) → adopt o (some old) ≡ ok o' → old ≡ o
adopt_refused o o' old e = elim (Bool-cases (str_eq old.kind o.kind && str_eq old.name o.name)) [
  | inl same ↦
      let (kinds, names) = str_eq_both old.kind o.kind old.name o.name same in
      ap₂ (λ k n. record { kind = k; name = n }) kinds names
  | inr other ↦
      let e' : err (codes "already owned") ≡ ok o' = rw other at e in absurd (ground arith)
]

pub cluster-IsCluster : IsCluster cluster (λ w. w.deployments) (λ w. w.services)
cluster-IsCluster = record {
  get_hub = λ req w. ((λ k. refl), λ k. refl);
  get_peer = λ req w. ((λ k. refl), λ k. refl);
  hub_status = λ hub st w. ((λ k. refl), λ k. refl);
  peer_status = λ peer ready w. ((λ k. refl), λ k. refl);
  deployment = λ key f w.
      (written-IsApplied deployment_owner key f w.deployments no_deployment refl, λ k. refl);
  service =
      λ key f w. (written-IsApplied service_owner key f w.services no_service refl, λ k. refl);
  told = adopt_told;
  refused = adopt_refused;
}

abbrev pub key : Key
key = (codes "netso", codes "office")

abbrev image : Bytes
image = codes "netso:local"

abbrev pub nothing : World
nothing = record { deployments = λ k. none; services = λ k. none }

abbrev reconciled : World
reconciled = (reconcile_hub cluster image key nothing).0

abbrev office_hub : Owner
office_hub = record { kind = codes "Hub"; name = codes "office" }

abbrev office_deployment : Deployment
office_deployment = or_empty (reconciled.deployments key) no_deployment

hub_deployed : reconciled.deployments key ≡ some office_deployment
unfolding reconcile_hub reconcile_hub_found finish_hub str_eq netso.Operator.Service.hub_deployment
    netso.Operator.Service.hub_service
hub_deployed = refl

hub_controls : office_deployment.owner ≡ some office_hub
unfolding reconcile_hub reconcile_hub_found finish_hub str_eq netso.Operator.Service.hub_deployment
    netso.Operator.Service.hub_service
hub_controls = refl

-- The Peer of the Hub's name, and the Hub again.
abbrev both : List Request
both = Request.a_peer key ∷ Request.a_hub key ∷ []

run-Deployed_example :
    (d' : Deployment) × ((run cluster image both reconciled).deployments key ≡ some d')
    × (d'.owner ≡ some office_hub)
    × ((d' ≡ office_deployment) ⊎ Deployed image key office_hub d')
run-Deployed_example =
    run-Deployed cluster image (λ w. w.deployments) (λ w. w.services) cluster-IsCluster both
      reconciled key office_deployment office_hub hub_deployed hub_controls

reconcile_hub-done_example :
    ((e : Bytes) × ((reconcile_hub cluster image key nothing).1 ≡ some e))
    ⊎ (HasService office reconciled.services × HasDeployment image office reconciled.deployments)
reconcile_hub-done_example =
    reconcile_hub-done cluster image (λ w. w.deployments) (λ w. w.services) cluster-IsCluster key
      office nothing refl

abbrev engaged : World × Option Bytes
engaged = reconcile_peer cluster image key nothing

reconcile_peer-done_example :
    ((desk.hub_ref ≡ [])
      × (engaged.1 ≡ none)
      × IsSame cluster (λ w. w.deployments) (λ w. w.services) nothing engaged.0)
    ⊎ ((desk.hub_ref ≢ [])
        × (((e : Bytes) × (engaged.1 ≡ some e)) ⊎ HasAgent image desk engaged.0.deployments))
reconcile_peer-done_example =
    reconcile_peer-done cluster image (λ w. w.deployments) (λ w. w.services) cluster-IsCluster key
      desk nothing refl

-- The Hub's deployment is written, and the Peer of the same name gets an error.
test_collision : (reconcile_peer cluster image key reconciled).1 ≡ some (codes "already owned")
unfolding reconcile_hub reconcile_hub_found reconcile_peer reconcile_peer_found finish_hub str_eq
    netso.Operator.agent_deployment netso.Operator.Service.hub_deployment
    netso.Operator.Service.hub_service
test_collision = refl
