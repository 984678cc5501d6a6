-- ===== src/Operator/Reconcile/Kept.antt =====
-- operator/controllers.go: whatever is reconciled, no object changes its owner, and only its owner changes
-- it.
use netso.Common.{◌⊎◌, ◌≡◌, refl, sym, ap, ◌∙◌, Option, some, List, [], ◌∷◌, inl, inr}
use netso.Common.Bytes.{Bytes}
use netso.Common.Result.{Result, ok, bind-ok}
use netso.Operator.{Owner, Deployment, PeerResource, agent_deployment}
use netso.Operator.Service.{Service, HubResource, hub_deployment, hub_service}
use netso.Operator.Reconcile.{
  Key, Cluster, Request, hub_owner, peer_owner, set_hub_deployment, set_hub_service,
  set_agent_deployment, reconcile_hub, reconcile_peer, run,
}
use netso.Operator.Reconcile.Along.{reconcile_hub-along, reconcile_peer-along}
use netso.Operator.Reconcile.Owned.{
  deployment_owner, service_owner, same-IsKept, applied-IsKept, IsKept, IsKept-trans, IsSame,
  IsCluster,
}
use netso.Operator.Reconcile.Done.{set_service-done, set_deployment-done}
use netso.Operator.Reconcile.PeerDone.{set_agent-done}

-- Objects that are as a resource asks that has the name and is the owner.
abbrev pub MadeByHub : Bytes → Key → Owner → Deployment → Type 0
MadeByHub image key o d =
    (hub : HubResource) × ((hub.namespace, hub.name) ≡ key)
    × (hub_owner hub ≡ o)
    × (hub_deployment image hub d ≡ d)

abbrev pub MadeByPeer : Bytes → Key → Owner → Deployment → Type 0
MadeByPeer image key o d =
    (peer : PeerResource) × ((peer.namespace, peer.name) ≡ key)
    × (peer_owner peer ≡ o)
    × (agent_deployment image peer d ≡ d)

abbrev pub Deployed : Bytes → Key → Owner → Deployment → Type 0
Deployed image key o d = MadeByHub image key o d ⊎ MadeByPeer image key o d

abbrev pub Served : Key → Owner → Service → Type 0
Served key o s =
    (hub : HubResource) × ((hub.namespace, hub.name) ≡ key)
    × (hub_owner hub ≡ o)
    × (hub_service hub s ≡ s)

module _ {E W : Type 0} (cluster : Cluster E W) (image : Bytes)
    (deployments : W → Key → Option Deployment) (services : W → Key → Option Service)
    (c : IsCluster cluster deployments services) where
  -- The owner that is set is the one that was there.
  same_owner :
      (me o r : Owner) (old : Option Owner)
      → old ≡ some o
      → cluster.set_controller me old ≡ ok r
      → me ≡ o
  same_owner me o r old at e = sym (c.refused me r o (ap (cluster.set_controller me) (sym at) ∙ e))

  hub_deployment-Deployed :
      (hub : HubResource) (old made : Deployment) (o : Owner)
      → set_hub_deployment cluster image hub old ≡ ok made
      → deployment_owner old ≡ some o
      → (deployment_owner made ≡ some o) × Deployed image (hub.namespace, hub.name) o made
  unfolding hub_deployment
  hub_deployment-Deployed hub old made o e at =
      let (r, set, _) = bind-ok (cluster.set_controller (hub_owner hub) old.owner) _ made e in
      let same = same_owner (hub_owner hub) o r old.owner at set in
      let (owned, asked) =
        set_deployment-done cluster image deployments services c hub old made e in
      (owned ∙ ap some same, inl (hub, refl, same, asked))

  hub_service-Served :
      (hub : HubResource) (old made : Service) (o : Owner)
      → set_hub_service cluster image hub old ≡ ok made
      → service_owner old ≡ some o
      → (service_owner made ≡ some o) × Served (hub.namespace, hub.name) o made
  unfolding hub_service
  hub_service-Served hub old made o e at =
      let (r, set, _) = bind-ok (cluster.set_controller (hub_owner hub) old.owner) _ made e in
      let same = same_owner (hub_owner hub) o r old.owner at set in
      let (owned, asked) = set_service-done cluster image deployments services c hub old made e in
      (owned ∙ ap some same, (hub, refl, same, asked))

  agent_deployment-Deployed :
      (peer : PeerResource) (old made : Deployment) (o : Owner)
      → set_agent_deployment cluster image peer old ≡ ok made
      → deployment_owner old ≡ some o
      → (deployment_owner made ≡ some o) × Deployed image (peer.namespace, peer.name) o made
  unfolding agent_deployment
  agent_deployment-Deployed peer old made o e at =
      let (r, set, _) = bind-ok (cluster.set_controller (peer_owner peer) old.owner) _ made e in
      let same = same_owner (peer_owner peer) o r old.owner at set in
      let (owned, asked, _) = set_agent-done cluster image deployments services c peer old made e in
      (owned ∙ ap some same, inr (peer, refl, same, asked))

  -- Every controlled deployment and service keeps who controls it, and is as it was or as that one asks.
  abbrev Kept : W → W → Type 0
  Kept w w' =
      IsKept deployment_owner (Deployed image) (deployments w) (deployments w')
      × IsKept service_owner Served (services w) (services w')

  same-Kept : (w w' : W) → IsSame cluster deployments services w w' → Kept w w'
  same-Kept w w' same = (
    same-IsKept deployment_owner (Deployed image) (deployments w) (deployments w') same.0,
    same-IsKept service_owner Served (services w) (services w') same.1,
  )

  then_Kept : (u v w : W) → Kept u v → Kept v w → Kept u w
  then_Kept u v w k l = (
    IsKept-trans deployment_owner (Deployed image) (deployments u) (deployments v) (deployments w)
        k.0 l.0,
    IsKept-trans service_owner Served (services u) (services v) (services w) k.1 l.1,
  )

  deployment-Kept :
      (key : Key) (f : Deployment → Result E Deployment) (w : W)
      → ((old made : Deployment) (o : Owner)
          → f old ≡ ok made
          → deployment_owner old ≡ some o
          → (deployment_owner made ≡ some o) × Deployed image key o made)
      → Kept w (cluster.apply_deployment key f w).0
  deployment-Kept key f w keeps =
      let w' = (cluster.apply_deployment key f w).0 in
      let (applied, same) = c.deployment key f w in
      (
        applied-IsKept deployment_owner (Deployed image) (deployments w) (deployments w') key f
            (cluster.apply_deployment key f w).1 applied keeps,
        same-IsKept service_owner Served (services w) (services w') same,
      )

  service-Kept :
      (hub : HubResource) (w : W)
      → let f = set_hub_service cluster image hub in
        Kept w (cluster.apply_service (hub.namespace, hub.name) f w).0
  service-Kept hub w =
      let key : Key = (hub.namespace, hub.name) in
      let f = set_hub_service cluster image hub in
      let w' = (cluster.apply_service key f w).0 in
      let (applied, same) = c.service key f w in
      (
        same-IsKept deployment_owner (Deployed image) (deployments w) (deployments w') same,
        applied-IsKept service_owner Served (services w) (services w') key f
            (cluster.apply_service key f w).1 applied (hub_service-Served hub),
      )

  reconcile_hub-Kept : (req : Key) (w : W) → Kept w (reconcile_hub cluster image req w).0
  reconcile_hub-Kept =
      let f = set_hub_deployment cluster image in
      reconcile_hub-along cluster image deployments services c Kept same-Kept then_Kept
        (λ hub w. deployment-Kept (hub.namespace, hub.name) (f hub) w (hub_deployment-Deployed hub))
        service-Kept

  reconcile_peer-Kept : (req : Key) (w : W) → Kept w (reconcile_peer cluster image req w).0
  reconcile_peer-Kept =
      let f = set_agent_deployment cluster image in
      reconcile_peer-along cluster image deployments services c Kept same-Kept then_Kept (λ peer w.
        deployment-Kept (peer.namespace, peer.name) (f peer) w (agent_deployment-Deployed peer))

  -- Nothing that somebody controls changes hands, goes, or is written over by anybody else.
  run-Kept : (reqs : List Request) (w : W) → Kept w (run cluster image reqs w)
  unfolding run
  run-Kept [] w = same-Kept w w ((λ k. refl), (λ k. refl))
  run-Kept (Request.a_hub req ∷ reqs) w =
      let w' = (reconcile_hub cluster image req w).0 in
      then_Kept w w' (run cluster image reqs w') (reconcile_hub-Kept req w) (run-Kept reqs w')
  run-Kept (Request.a_peer req ∷ reqs) w =
      let w' = (reconcile_peer cluster image req w).0 in
      then_Kept w w' (run cluster image reqs w') (reconcile_peer-Kept req w) (run-Kept reqs w')

  -- Whatever Hubs and Peers are reconciled, in any order, and whatever fails: a deployment that some
  -- resource controls is still there and controlled by the same resource, and either it is as it was,
  -- or it is as a Hub or a Peer asks that is this owner and has the deployment's name: so a Hub and a
  -- Peer of one name never write over each other's deployment. The calls of the Kubernetes API do what
  -- they are documented to do.
  pub run-Deployed :
      (reqs : List Request) (w : W) (key : Key) (d : Deployment) (o : Owner)
      → deployments w key ≡ some d
      → d.owner ≡ some o
      → (d' : Deployment) × (deployments (run cluster image reqs w) key ≡ some d')
        × (d'.owner ≡ some o)
        × ((d' ≡ d) ⊎ Deployed image key o d')
  run-Deployed reqs w key d o at owned = (run-Kept reqs w).0 key d o at owned
