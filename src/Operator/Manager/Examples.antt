-- ===== src/Operator/Manager/Examples.antt =====
-- A manager that keeps the controllers that it was told of.
use netso.Common.{◌≡◌, refl, Option, none, some, List, [], ◌∷◌, ◌++◌, map, All}
use netso.Common.Bytes.{Bytes, codes}
use netso.Operator.Reconcile.Examples.{cluster, cluster-IsCluster}
use netso.Operator.Manager.{
  Controller, Reconciler, Runtime, Fatal, hub_gvk, peer_gvk, env_or, image_of, main,
}
use netso.Operator.Manager.Started.{IsRuntime, Watches, role, main-Watches}

abbrev runtime : Runtime Bytes (List Controller)
runtime = record {
  add_to_scheme = λ v. (v, none);
  new_manager = λ v. (v, none);
  complete = λ c v. (v ++ c ∷ [], none);
  start = λ v. (v, some (codes "signal"));
}

runtime-IsRuntime : IsRuntime runtime (λ v. v)
runtime-IsRuntime = record {
  add_to_scheme = λ v. refl;
  new_manager = λ v. refl;
  complete = λ c v e. refl;
  start = λ v. refl;
}

-- An environment without the variable.
abbrev unset : Bytes → Bytes
unset name = []

test_default : image_of unset none ≡ codes "netso:local"
unfolding image_of env_or netso.Common.Bytes.str_eq
test_default = refl

test_exits : (main runtime unset none []).1 ≡ some (Fatal.exited (codes "signal"))
unfolding main
test_exits = refl

main-Watches_example :
    let told = (main runtime unset none []).0 in
    (map role told
      ≡ (hub_gvk, Reconciler.of_hubs (image_of unset none))
        ∷ (peer_gvk, Reconciler.of_peers (image_of unset none))
        ∷ [])
    × All (Watches cluster (λ w. w.deployments) (λ w. w.services) cluster-IsCluster) told
unfolding main
main-Watches_example =
    main-Watches cluster (λ w. w.deployments) (λ w. w.services) cluster-IsCluster runtime (λ v. v)
      runtime-IsRuntime unset none [] refl tt
