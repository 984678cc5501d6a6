-- ===== src/Operator/Manager/Started.antt =====
-- operator/main.go: what a manager that has been started was told.
use netso.Common.{
  ◌≡◌, refl, sym, ap, ◌∙◌, Option, none, some, List, [], ◌∷◌, ◌++◌, map, All, subst, Option-cases,
  inl, inr,
}
use netso.Common.Bytes.{Bytes, codes}
use netso.Operator.{Deployment}
use netso.Operator.Service.{Service}
use netso.Operator.Reconcile.{Key, Cluster}
use netso.Operator.Reconcile.Owned.{IsCluster}
use netso.Operator.Manager.{
  GroupVersionKind, Controller, Reconciler, Runtime, Fatal, hub_gvk, peer_gvk, hub_controller,
  peer_controller, reconcile, image_of, call, start_manager, main,
}
use netso.Operator.Manager.Watched.{AllWatched, hub_controller-watches, peer_controller-watches}

-- `main` has come to the manager's run.
abbrev pub HasStarted : {E : Type 0} → Option (Fatal E) → Type 0
HasStarted none = Unit
HasStarted (some (Fatal.scheme e)) = ⊥
HasStarted (some (Fatal.manager e)) = ⊥
HasStarted (some (Fatal.a_controller which e)) = ⊥
HasStarted (some (Fatal.exited e)) = Unit

-- What a controller is for, and what it runs.
abbrev pub role : Controller → GroupVersionKind × Reconciler
role ctl = (ctl.for, ctl.reconciler)

module _ {E V : Type 0} (runtime : Runtime E V) (controllers : V → List Controller) where
  -- What `main` relies on: `Complete` adds the controller that it is called for, if it has no error,
  -- and no other call adds or drops one.
  pub record IsRuntime : Type 0 where
    pub add_to_scheme : (v : V) → controllers (runtime.add_to_scheme v).0 ≡ controllers v
    pub new_manager : (v : V) → controllers (runtime.new_manager v).0 ≡ controllers v
    pub complete :
        (c : Controller) (v : V)
        → (runtime.complete c v).1 ≡ none
        → controllers (runtime.complete c v).0 ≡ controllers v ++ c ∷ []
    pub start : (v : V) → controllers (runtime.start v).0 ≡ controllers v

  -- A call that `main` has come past had no error.
  past :
      (act : V → V × Option E) (failed : E → Fatal E) (next : V → V × Option (Fatal E)) (v : V)
      → ((e : E) → HasStarted (some (failed e)) → ⊥)
      → HasStarted (call runtime act failed next v).1
      → ((act v).1 ≡ none) × (call runtime act failed next v ≡ next (act v).0)
  past act failed next v stops started = elim (Option-cases (act v).1) [
    | inl fine ↦ (fine, rw (fine, call) refl)
    | inr (e, at) ↦ absurd (stops e (rw (at, call) at started))
  ]

  main-controllers :
      (r : IsRuntime) (getenv : Bytes → Bytes) (flag : Option Bytes) (v : V)
      → controllers v ≡ []
      → HasStarted (main runtime getenv flag v).1
      → let image = image_of getenv flag in
        controllers (main runtime getenv flag v).0
        ≡ hub_controller image ∷ peer_controller image ∷ []
  unfolding main
  main-controllers r getenv flag v empty started =
      let image = image_of getenv flag in
      let hub = hub_controller image in
      let peer = peer_controller image in
      let last =
        call runtime (runtime.complete peer) (Fatal.a_controller (codes "peer"))
          (start_manager runtime) in
      let third = call runtime (runtime.complete hub) (Fatal.a_controller (codes "hub")) last in
      let second = call runtime runtime.new_manager Fatal.manager third in
      let v₁ = (runtime.add_to_scheme v).0 in
      let v₂ = (runtime.new_manager v₁).0 in
      let v₃ = (runtime.complete hub v₂).0 in
      let v₄ = (runtime.complete peer v₃).0 in
      let on = λ (a b : V × Option (Fatal E)) (e : a ≡ b) (h : HasStarted a.1).
        subst (λ x. HasStarted x.1) e h in
      let a = past runtime.add_to_scheme Fatal.scheme second v (λ e h. h) started in
      let at₁ = on _ _ a.1 started in
      let b = past runtime.new_manager Fatal.manager third v₁ (λ e h. h) at₁ in
      let at₂ = on _ _ b.1 at₁ in
      let c =
        past (runtime.complete hub) (Fatal.a_controller (codes "hub")) last v₂ (λ e h. h) at₂ in
      let at₃ = on _ _ c.1 at₂ in
      let d =
        past (runtime.complete peer) (Fatal.a_controller (codes "peer")) (start_manager runtime) v₃
          (λ e h. h) at₃ in
      ap (λ x. controllers x.0) (a.1 ∙ b.1 ∙ c.1 ∙ d.1)
      ∙ r.start v₄
      ∙ r.complete peer v₃ d.0
      ∙ ap (λ l. l ++ peer ∷ [])
          (r.complete hub v₂ c.0
            ∙ ap (λ l. l ++ hub ∷ []) (r.new_manager v₁ ∙ r.add_to_scheme v ∙ empty))

module _ {E W : Type 0} (cluster : Cluster E W) (deployments : W → Key → Option Deployment)
    (services : W → Key → Option Service) (c : IsCluster cluster deployments services) where
  -- A controller watches all that its `Reconcile` writes.
  abbrev pub Watches : Controller → Type 0
  Watches ctl =
      (req : Key) (w : W)
      → AllWatched cluster deployments services c ctl w (reconcile cluster ctl.reconciler req w).0

  -- When the manager has been started, it has two controllers, one of Hubs and one of Peers, both with
  -- the image of the flag or its default, and each watches all that its Reconcile writes: whatever is
  -- reconciled and whatever fails, a deployment or a service that is not left as it is is of a kind
  -- that the controller has been told it owns, and is controlled by the resource of the object's own
  -- namespace and name, of the kind that the controller is for. The manager has no controllers at
  -- first, Complete adds one unless it fails, and the calls of the Kubernetes API do what they are
  -- documented to do.
  pub main-Watches :
      {V : Type 0} (runtime : Runtime E V) (controllers : V → List Controller)
      (r : IsRuntime runtime controllers) (getenv : Bytes → Bytes) (flag : Option Bytes) (v : V)
      → controllers v ≡ []
      → HasStarted (main runtime getenv flag v).1
      → let image = image_of getenv flag in
        let told = controllers (main runtime getenv flag v).0 in
        (map role told
          ≡ (hub_gvk, Reconciler.of_hubs image) ∷ (peer_gvk, Reconciler.of_peers image) ∷ [])
        × All Watches told
  unfolding hub_controller peer_controller
  main-Watches runtime controllers r getenv flag v empty started =
      let image = image_of getenv flag in
      let told = main-controllers runtime controllers r getenv flag v empty started in
      (
        ap (map role) told,
        subst (All Watches) (sym told) (
          hub_controller-watches cluster deployments services c image,
          (peer_controller-watches cluster deployments services c image, tt),
        ),
      )
