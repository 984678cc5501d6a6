-- ===== src/Operator/Reconcile/Done.antt =====
-- operator/controllers.go: what there is when a Hub has been reconciled without an error.
use netso.Common.{
  ◌≡◌, ◌≢◌, ◌⊎◌, refl, sym, ap, subst, ◌∙◌, Option, none, some, arith, inl, inr, Option-cases,
}
use netso.Common.Bytes.{Bytes}
use netso.Common.Result.{Result, ok, err, Result-cases, bind-ok}
use netso.Operator.{Owner, Deployment}
use netso.Operator.Service.{Service, HubResource, hub_deployment, hub_service, hub_status}
use netso.Operator.Reconcile.{
  Key, Cluster, hub_owner, set_hub_deployment, set_hub_service, finish_hub, reconcile_hub_found,
  reconcile_hub,
}
use netso.Operator.Reconcile.Owned.{View, deployment_owner, service_owner, IsApplied, IsCluster}

err_ne_ok : {E A : Type 0} {e : E} {a : A} → err e ≢ ok a
err_ne_ok q = ground arith

some_ne_none : {A : Type 0} {a : A} → some a ≢ none
some_ne_none e = ground arith

-- The service and the deployment of a hub are there, controlled by the Hub and as it asks.
abbrev pub HasService : HubResource → View Service → Type 0
HasService hub services =
    (svc : Service) × (services (hub.namespace, hub.name) ≡ some svc)
    × (svc.owner ≡ some (hub_owner hub))
    × (hub_service hub svc ≡ svc)

abbrev pub HasDeployment : Bytes → HubResource → View Deployment → Type 0
HasDeployment image hub deployments =
    (dep : Deployment) × (deployments (hub.namespace, hub.name) ≡ some dep)
    × (dep.owner ≡ some (hub_owner hub))
    × (hub_deployment image hub dep ≡ dep)

module _ {E W : Type 0} (cluster : Cluster E W) (image : Bytes)
    (deployments : W → Key → Option Deployment) (services : W → Key → Option Service)
    (c : IsCluster cluster deployments services) where
  pub set_service-done :
      (hub : HubResource) (old made : Service)
      → set_hub_service cluster image hub old ≡ ok made
      → (made.owner ≡ some (hub_owner hub)) × (hub_service hub made ≡ made)
  unfolding hub_service
  set_service-done hub old made e =
      let (r, set, back) = bind-ok (cluster.set_controller (hub_owner hub) old.owner) _ made e in
      let same : record (hub_service hub old) { owner = some r } ≡ made = cc in
      (
        sym (ap service_owner same) ∙ ap some (c.told (hub_owner hub) r old.owner set),
        subst (λ s. hub_service hub s ≡ s) same refl,
      )

  pub set_deployment-done :
      (hub : HubResource) (old made : Deployment)
      → set_hub_deployment cluster image hub old ≡ ok made
      → (made.owner ≡ some (hub_owner hub)) × (hub_deployment image hub made ≡ made)
  unfolding hub_deployment
  set_deployment-done hub old made e =
      let (r, set, back) = bind-ok (cluster.set_controller (hub_owner hub) old.owner) _ made e in
      let same : record (hub_deployment image hub old) { owner = some r } ≡ made = cc in
      (
        sym (ap deployment_owner same) ∙ ap some (c.told (hub_owner hub) r old.owner set),
        subst (λ d. hub_deployment image hub d ≡ d) same refl,
      )

  -- What `CreateOrUpdate` has written when it returns an object.
  pub applied-done :
      {A : Type 0} (owner : A → Option Owner) (view view' : View A) (key : Key) (f : A → Result E A)
      (out : Result E A) (made : A)
      → IsApplied owner view view' key f out
      → out ≡ ok made
      → (old : A) × (f old ≡ ok made) × (view' key ≡ some made)
  applied-done owner view view' key f out made (inl (e, failed, same)) done =
      absurd (err_ne_ok (sym failed ∙ done))
  applied-done owner view view' key f out made (inr (old, made', found, set, back, written, _))
        done =
      let same : made' ≡ made = cc (back, done) in (old, set ∙ ap ok same, written ∙ ap some same)

  finish_hub-done :
      (hub : HubResource) (dep : Deployment) (w : W)
      → (finish_hub cluster image hub dep w).1 ≡ none
      → HasService hub (services (finish_hub cluster image hub dep w).0)
        × ((k : Key) → deployments (finish_hub cluster image hub dep w).0 k ≡ deployments w k)
  unfolding finish_hub
  finish_hub-done hub dep w nil =
      let key : Key = (hub.namespace, hub.name) in
      let f = set_hub_service cluster image hub in
      let r = cluster.apply_service key f w in
      let (applied, same) = c.service key f w in
      elim (Result-cases r.1) [
        | inl (e, failed) ↦ absurd (some_ne_none (rw (failed, finish_hub) at nil))
        | inr (svc, done) ↦
            let st = hub_status hub dep.ready_replicas in
            let (old, set, written) =
              applied-done service_owner (services w) (services r.0) key f r.1 svc applied done in
            let (owned, asked) = set_service-done hub old svc set in
            let (deps_same, svcs_same) = c.hub_status hub st r.0 in
            rw (done, finish_hub)
              ((svc, svcs_same key ∙ written, owned, asked), λ k. deps_same k ∙ same k)
      ]

  found-done :
      (hub : HubResource) (w : W)
      → (reconcile_hub_found cluster image hub w).1 ≡ none
      → HasService hub (services (reconcile_hub_found cluster image hub w).0)
        × HasDeployment image hub (deployments (reconcile_hub_found cluster image hub w).0)
  unfolding reconcile_hub_found
  found-done hub w nil =
      let key : Key = (hub.namespace, hub.name) in
      let f = set_hub_deployment cluster image hub in
      let r = cluster.apply_deployment key f w in
      let (applied, _) = c.deployment key f w in
      elim (Result-cases r.1) [
        | inl (e, failed) ↦ absurd (some_ne_none (rw (failed, reconcile_hub_found) at nil))
        | inr (dep, done) ↦
            let (old, set, written) =
              applied-done deployment_owner (deployments w) (deployments r.0) key f r.1 dep applied
                done in
            let (owned, asked) = set_deployment-done hub old dep set in
            let (service, same) =
              finish_hub-done hub dep r.0 (rw (done, reconcile_hub_found) at nil) in
            rw (done, reconcile_hub_found) (service, (dep, same key ∙ written, owned, asked))
      ]

  -- Reconciling a Hub that is there has an error, or leaves a service and a deployment of the Hub's
  -- name that the Hub controls and that are as it asks: asking again would change neither. The calls of
  -- the Kubernetes API do what they are documented to do.
  pub reconcile_hub-done :
      (req : Key) (hub : HubResource) (w : W)
      → (cluster.get_hub req w).1 ≡ ok hub
      → ((e : E) × ((reconcile_hub cluster image req w).1 ≡ some e))
        ⊎ (HasService hub (services (reconcile_hub cluster image req w).0)
            × HasDeployment image hub (deployments (reconcile_hub cluster image req w).0))
  unfolding reconcile_hub
  reconcile_hub-done req hub w found =
      let w' = (cluster.get_hub req w).0 in
      elim (Option-cases (reconcile_hub_found cluster image hub w').1) [
        | inl nil ↦ inr (rw (found, reconcile_hub) (found-done hub w' nil))
        | inr (e, failed) ↦ inl (e, rw (found, reconcile_hub) failed)
      ]
