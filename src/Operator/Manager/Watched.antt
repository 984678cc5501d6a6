-- ===== src/Operator/Manager/Watched.antt =====
-- operator/main.go: the kinds of object that a controller watches, and what its `Reconcile` writes.
use netso.Common.{
  ◌≡◌, ◌⊎◌, refl, sym, ap, ◌∙◌, Bool, true, false, ◌||◌, Option, some, List, [], ◌∷◌, inl, inr,
  Bool-cases,
}
use netso.Common.Bytes.{Bytes, str_eq_both}
use netso.Common.Result.{Result, ok}
use netso.Operator.{Owner, Deployment}
use netso.Operator.Service.{Service}
use netso.Operator.Reconcile.{
  Key, Cluster, set_hub_deployment, set_hub_service, set_agent_deployment,
}
use netso.Operator.Reconcile.Owned.{
  View, key_eq, deployment_owner, service_owner, IsApplied, IsSame, IsCluster,
}
use netso.Operator.Reconcile.Along.{reconcile_hub-along, reconcile_peer-along}
use netso.Operator.Reconcile.PeerDone.{set_agent-done}
use netso.Operator.Reconcile.Done.{set_deployment-done, set_service-done}
use netso.Operator.Manager.{Workload, Controller, hub_controller, peer_controller, reconcile}

-- Whether a controller has been told that it owns a kind of workload.
abbrev pub is_deployment : Workload → Bool
is_deployment Workload.deployment = true
is_deployment Workload.service = false

abbrev pub is_service : Workload → Bool
is_service Workload.deployment = false
is_service Workload.service = true

abbrev pub owns_any : (Workload → Bool) → List Workload → Bool
owns_any p [] = false
owns_any p (k ∷ ks) = let rest = owns_any p ks in p k || rest

-- The resource that a controller is for, by its name.
abbrev pub resource : Controller → Key → Owner
resource ctl key = record { kind = ctl.for.kind; name = key.1 }

-- An object is left as it is, or it is of a kind that the controller has been told it owns, and it is
-- there and controlled by the resource of its own namespace and name, of the kind that the controller
-- is for.
abbrev pub IsWatched :
    {A : Type 0} → (A → Option Owner) → (Workload → Bool) → Controller → View A → View A → Type 0
IsWatched {A} owner p ctl view view' =
    (k : Key)
    → (view' k ≡ view k)
      ⊎ ((owns_any p ctl.owns ≡ true)
          × ((a : A) × (view' k ≡ some a) × (owner a ≡ some (resource ctl k))))

module _ {A : Type 0} (owner : A → Option Owner) (p : Workload → Bool) (ctl : Controller) where
  IsWatched-trans :
      (a b c : View A)
      → IsWatched owner p ctl a b
      → IsWatched owner p ctl b c
      → IsWatched owner p ctl a c
  IsWatched-trans a b c first second k = elim (second k) [
    | inr written ↦ inr written
    | inl left ↦ elim (first k) [
      | inl left' ↦ inl (left ∙ left')
      | inr (told, (x, there, controlled)) ↦ inr (told, (x, left ∙ there, controlled))
    ]
  ]

  applied-IsWatched :
      {E : Type 0} (view view' : View A) (key : Key) (f : A → Result E A) (out : Result E A)
      → owns_any p ctl.owns ≡ true
      → IsApplied owner view view' key f out
      → ((old made : A) → f old ≡ ok made → owner made ≡ some (resource ctl key))
      → IsWatched owner p ctl view view'
  applied-IsWatched view view' key f out told (inl (e, failed, same)) sets = λ k. inl (same k)
  applied-IsWatched view view' key f out told (inr (old, made, found, set, back, written, others))
        sets =
      λ k. elim (Bool-cases (key_eq k key)) [
        | inr other ↦ inl (others k other)
        | inl same ↦
            let (namespace, name) = str_eq_both k.0 key.0 k.1 key.1 same in
            let there = ap (λ n. view' (n, k.1)) namespace ∙ ap (λ n. view' (key.0, n)) name in
            let renamed = ap (λ n. some (resource ctl (key.0, n))) (sym name) in
            inr (told, (made, there ∙ written, sets old made set ∙ renamed))
      ]

module _ {E W : Type 0} (cluster : Cluster E W) (deployments : W → Key → Option Deployment)
    (services : W → Key → Option Service) (c : IsCluster cluster deployments services) where
  -- Every deployment and every service.
  abbrev pub AllWatched : Controller → W → W → Type 0
  AllWatched ctl w w' =
      IsWatched deployment_owner is_deployment ctl (deployments w) (deployments w')
      × IsWatched service_owner is_service ctl (services w) (services w')

  same-AllWatched :
      (ctl : Controller) (w w' : W) → IsSame cluster deployments services w w' → AllWatched ctl w w'
  same-AllWatched ctl w w' same = ((λ k. inl (same.0 k)), (λ k. inl (same.1 k)))

  AllWatched-trans :
      (ctl : Controller) (u v w : W) → AllWatched ctl u v → AllWatched ctl v w → AllWatched ctl u w
  AllWatched-trans ctl u v w a b = (
    IsWatched-trans deployment_owner is_deployment ctl (deployments u) (deployments v)
        (deployments w) a.0 b.0,
    IsWatched-trans service_owner is_service ctl (services u) (services v) (services w) a.1 b.1,
  )

  deployment-AllWatched :
      (ctl : Controller) (key : Key) (f : Deployment → Result E Deployment) (w : W)
      → owns_any is_deployment ctl.owns ≡ true
      → ((old made : Deployment)
          → f old ≡ ok made
          → deployment_owner made ≡ some (resource ctl key))
      → AllWatched ctl w (cluster.apply_deployment key f w).0
  deployment-AllWatched ctl key f w told sets =
      let r = cluster.apply_deployment key f w in
      let (applied, same) = c.deployment key f w in
      (
        applied-IsWatched deployment_owner is_deployment ctl (deployments w) (deployments r.0) key f
            r.1 told applied sets,
        λ k. inl (same k),
      )

  service-AllWatched :
      (ctl : Controller) (key : Key) (f : Service → Result E Service) (w : W)
      → owns_any is_service ctl.owns ≡ true
      → ((old made : Service) → f old ≡ ok made → service_owner made ≡ some (resource ctl key))
      → AllWatched ctl w (cluster.apply_service key f w).0
  service-AllWatched ctl key f w told sets =
      let r = cluster.apply_service key f w in
      let (applied, same) = c.service key f w in
      (
        λ k. inl (same k),
        applied-IsWatched service_owner is_service ctl (services w) (services r.0) key f r.1 told
            applied sets,
      )

  pub hub_controller-watches :
      (image : Bytes) (req : Key) (w : W)
      → let ctl = hub_controller image in
        AllWatched ctl w (reconcile cluster ctl.reconciler req w).0
  unfolding hub_controller
  hub_controller-watches image =
      let ctl = hub_controller image in
      let f = set_hub_deployment cluster image in
      let g = set_hub_service cluster image in
      reconcile_hub-along cluster image deployments services c (AllWatched ctl)
        (same-AllWatched ctl) (AllWatched-trans ctl)
        (λ hub w.
          deployment-AllWatched ctl (hub.namespace, hub.name) (f hub) w refl
            λ old made e.
              (set_deployment-done cluster image deployments services c hub old made e).0)
        (λ hub w.
          service-AllWatched ctl (hub.namespace, hub.name) (g hub) w refl
            λ old made e. (set_service-done cluster image deployments services c hub old made e).0)

  pub peer_controller-watches :
      (image : Bytes) (req : Key) (w : W)
      → let ctl = peer_controller image in
        AllWatched ctl w (reconcile cluster ctl.reconciler req w).0
  unfolding peer_controller
  peer_controller-watches image =
      let ctl = peer_controller image in
      let f = set_agent_deployment cluster image in
      reconcile_peer-along cluster image deployments services c (AllWatched ctl)
        (same-AllWatched ctl) (AllWatched-trans ctl)
        (λ peer w.
          deployment-AllWatched ctl (peer.namespace, peer.name) (f peer) w refl
            λ old made e. (set_agent-done cluster image deployments services c peer old made e).0)
