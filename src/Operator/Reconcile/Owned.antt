-- ===== src/Operator/Reconcile/Owned.antt =====
-- operator/controllers.go: what the two controllers leave alone.
use mathlib.Core.Path.{ap₂}
use mathlib.Core.Option.{some-injective}
use netso.Common.{
  ◌≡◌, ◌≢◌, ◌⊎◌, refl, sym, ap, subst, ◌∙◌, Bool, false, ◌&&◌, Option, none, some, arith, inl, inr,
  Bool-cases,
}
use netso.Common.Bytes.{Bytes, str_eq, str_eq_both}
use netso.Common.Result.{Result, ok, err}
use netso.Operator.{Owner, Deployment, PeerResource}
use netso.Operator.Service.{Service, HubResource}
use netso.Operator.Reconcile.{Key, Cluster}

abbrev pub key_eq : Key → Key → Bool
key_eq k l = str_eq k.0 l.0 && str_eq k.1 l.1

some_ne_none : {A : Type 0} {a : A} → some a ≢ none
some_ne_none e = ground arith

-- What the cluster holds of one kind, and who controls an object of it.
abbrev pub View : Type 0 → Type 0
View A = Key → Option A

abbrev pub deployment_owner : Deployment → Option Owner
deployment_owner d = d.owner

abbrev pub service_owner : Service → Option Owner
service_owner s = s.owner

module _ {A : Type 0} (owner : A → Option Owner) where
  -- `CreateOrUpdate` either fails and writes nothing, or writes and returns what the callback makes of
  -- the object that was there, or of a new one, which nobody controls.
  abbrev pub IsApplied :
      {E : Type 0} → View A → View A → Key → (A → Result E A) → Result E A → Type 0
  IsApplied {E} view view' key f out =
      ((e : E) × (out ≡ err e) × ((k : Key) → view' k ≡ view k))
      ⊎ ((old : A) × (made : A) × ((view key ≡ some old) ⊎ ((view key ≡ none) × (owner old ≡ none)))
          × (f old ≡ ok made)
          × (out ≡ ok made)
          × (view' key ≡ some made)
          × ((k : Key) → key_eq k key ≡ false → view' k ≡ view k))

module _ {A : Type 0} (owner : A → Option Owner) (Made : Key → Owner → A → Type 0) where
  -- Every object that somebody controls is still there, still controlled by the same, and either what
  -- it was or made for its name by who controls it.
  abbrev pub IsKept : View A → View A → Type 0
  IsKept view view' =
      (k : Key) (a : A) (o : Owner)
      → view k ≡ some a
      → owner a ≡ some o
      → (a' : A) × (view' k ≡ some a') × (owner a' ≡ some o) × ((a' ≡ a) ⊎ Made k o a')

  pub same-IsKept : (view view' : View A) → ((k : Key) → view' k ≡ view k) → IsKept view view'
  same-IsKept view view' same k a o at e = (a, same k ∙ at, e, inl refl)

  pub IsKept-trans : (a b c : View A) → IsKept a b → IsKept b c → IsKept a c
  IsKept-trans a b c kept kept' k x o at e =
      let (y, at', e', made) = kept k x o at e in
      let (z, at'', e'', made') = kept' k y o at' e' in
      (
        z,
        at'',
        e'',
        elim made' [
          | inr new ↦ inr new
          | inl same ↦ elim made [
            | inl all ↦ inl (same ∙ all)
            | inr new ↦ inr (subst (Made k o) (sym same) new)
          ]
        ],
      )

  pub applied-IsKept :
      {E : Type 0} (view view' : View A) (key : Key) (f : A → Result E A) (out : Result E A)
      → IsApplied owner view view' key f out
      → ((old made : A) (o : Owner)
          → f old ≡ ok made
          → owner old ≡ some o
          → (owner made ≡ some o) × Made key o made)
      → IsKept view view'
  applied-IsKept view view' key f out (inl (e, failed, same)) keeps = same-IsKept view view' same
  applied-IsKept view view' key f out (inr (old, made, found, set, back, written, others)) keeps =
      λ k a o at e. elim (Bool-cases (key_eq k key)) [
        | inr other ↦ (a, others k other ∙ at, e, inl refl)
        | inl same ↦
            let (namespace, name) = str_eq_both k.0 key.0 k.1 key.1 same in
            let here : k ≡ key = ap₂ (λ x y. (x, y)) namespace name in
            elim found [
              | inl there ↦
                  let e' : old ≡ a = some-injective old a (sym there ∙ ap view (sym here) ∙ at) in
                  let (owned, new) = keeps old made o set (ap owner e' ∙ e) in
                  (
                    made,
                    ap view' here ∙ written,
                    owned,
                    inr (subst (λ key'. Made key' o made) (sym here) new),
                  )
              | inr (nothing, _) ↦ absurd (some_ne_none (sym at ∙ ap view here ∙ nothing))
            ]
      ]

module _ {E W : Type 0} (cluster : Cluster E W) (deployments : W → Key → Option Deployment)
    (services : W → Key → Option Service) where
  -- A call that writes neither a deployment nor a service.
  abbrev pub IsSame : W → W → Type 0
  IsSame w w' =
      ((k : Key) → deployments w' k ≡ deployments w k) × ((k : Key) → services w' k ≡ services w k)

  -- What the controllers rely on: reads and updates of a status write no deployment and no service,
  -- a resource is read under its own name, `CreateOrUpdate` writes one object or none, and
  -- `SetControllerReference` gives the owner that it is told, and only to an object that nobody else
  -- controls.
  pub record IsCluster : Type 0 where
    pub get_hub : (req : Key) (w : W) → IsSame w (cluster.get_hub req w).0
    pub get_peer : (req : Key) (w : W) → IsSame w (cluster.get_peer req w).0
    pub hub_status :
        (hub : HubResource) (st : Bool × Bytes) (w : W)
        → IsSame w (cluster.update_hub_status hub st w).0
    pub peer_status :
        (peer : PeerResource) (ready : Bool) (w : W)
        → IsSame w (cluster.update_peer_status peer ready w).0
    pub deployment :
        (key : Key) (f : Deployment → Result E Deployment) (w : W)
        → let (w', out) = cluster.apply_deployment key f w in
          IsApplied deployment_owner (deployments w) (deployments w') key f out
          × ((k : Key) → services w' k ≡ services w k)
    pub service :
        (key : Key) (f : Service → Result E Service) (w : W)
        → let (w', out) = cluster.apply_service key f w in
          IsApplied service_owner (services w) (services w') key f out
          × ((k : Key) → deployments w' k ≡ deployments w k)
    pub told : (o o' : Owner) (old : Option Owner) → cluster.set_controller o old ≡ ok o' → o' ≡ o
    pub refused : (o o' old : Owner) → cluster.set_controller o (some old) ≡ ok o' → old ≡ o
