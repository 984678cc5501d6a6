-- ===== src/Registry/Lookup.antt =====
-- internal/registry/registry.go: the invariant of the nested map, and what each method leaves to be
-- found under each network and name.
use mathlib.Core.Path.{subst₂}
use netso.Common.{
  ◌==◌, ◌≡◌, refl, ◌≢◌, subst, sym, true, false, ◌&&◌, Option, none, some, List, [], ◌∷◌, length,
  arith, if◌then◌else◌, inl, inr, Bool-cases, Option-cases,
}
use netso.Common.Bytes.{Bytes, str_eq, str_eq_iff, str_eq_sound}
use netso.Map.{
  Map, get, put, delete, IsMap, get-put, get-delete, put-IsMap, delete-IsMap, put-ne-nil,
}
use netso.Registry.{Peer, Any, Record, Registry, new, add, net_of, drop_peer}

-- The record under a network and a name, if there is one.
unfoldable pub find : Bytes → Bytes → Registry → Option Record
find network name r = get name (net_of network r)

-- One network's map is not empty, and every record in it names the network and its own key.
pub record IsNet (network : Bytes) (net : Map Record) : Type 0 where
  pub nonempty : net ≢ []
  pub distinct : IsMap net
  pub named :
      (name : Bytes) (rec : Record)
      → get name net ≡ some rec
      → (rec.peer.network ≡ network) × (rec.peer.name ≡ name)

pub record IsValid (r : Registry) : Type 0 where
  pub distinct : IsMap r.m
  pub nets : (network : Bytes) (net : Map Record) → get network r.m ≡ some net → IsNet network net

length-zero {ℓ} : {A : Type ℓ} (l : List A) → (length l == 0) ≡ true → l ≡ []
length-zero [] h = refl
length-zero (x ∷ l) h = ground arith

length-nonzero {ℓ} : {A : Type ℓ} (l : List A) → (length l == 0) ≡ false → l ≢ []
length-nonzero [] h = ground arith
length-nonzero (x ∷ l) h = ground arith

pub new-IsValid : IsValid new
unfolding new get
new-IsValid = record { distinct = tt; nets = λ network net h. ground arith }

pub net_of-some :
    (network : Bytes) (r : Registry) {net : Map Record}
    → get network r.m ≡ some net
    → net_of network r ≡ net
net_of-some network r e = rw (e, net_of)

pub net_of-none : (network : Bytes) (r : Registry) → get network r.m ≡ none → net_of network r ≡ []
net_of-none network r e = rw (e, net_of)

pub net_of-IsMap : (network : Bytes) (r : Registry) → IsValid r → IsMap (net_of network r)
net_of-IsMap network r v = elim (Option-cases (get network r.m)) [
  | inl e ↦ subst IsMap (sym (net_of-none network r e)) tt
  | inr (net, e) ↦ subst IsMap (sym (net_of-some network r e)) (v.nets network net e).distinct
]

-- What discovery lists under a network and a name says so itself.
pub find-named :
    (network name : Bytes) (r : Registry) (rec : Record)
    → IsValid r
    → find network name r ≡ some rec
    → (rec.peer.network ≡ network) × (rec.peer.name ≡ name)
unfolding find get
find-named network name r rec v h = elim (Option-cases (get network r.m)) [
  | inl e ↦ ground (arith, net_of-none network r e)
  | inr (net, e) ↦ (v.nets network net e).named name rec (rw (net_of-some network r e) at h)
]

pub find-add :
    (p : Peer) (conn : Any) (r : Registry) (network name : Bytes)
    → find network name (add p conn r).0 ≡ (
        if str_eq p.network network && str_eq p.name name
        then some (record { peer = p; conn = conn })
        else find network name r)
unfolding find add
find-add p conn r network name = ground (
  arith,
  str_eq_iff p.network network,
  get-put p.network network (put p.name (record { peer = p; conn = conn }) (net_of p.network r))
      r.m,
  get-put p.name name (record { peer = p; conn = conn }) (net_of p.network r),
)

-- Writing one good network keeps the others good.
put-IsValid :
    (network : Bytes) (net : Map Record) (r : Registry)
    → IsValid r
    → IsNet network net
    → IsValid (record { m = put network net r.m })
put-IsValid network net r v good = record {
  distinct = put-IsMap network net r.m v.distinct;
  nets = λ network' net' h. elim (Bool-cases (str_eq network network')) [
    | inl e ↦
        let same : net ≡ net' = ground (arith, get-put network network' net r.m) in
        subst₂ IsNet (str_eq_sound network network' e) same good
    | inr e ↦ v.nets network' net' (rw (get-put, e) at h)
  ];
}

pub add-IsValid : (p : Peer) (conn : Any) (r : Registry) → IsValid r → IsValid (add p conn r).0
unfolding add
add-IsValid p conn r v = put-IsValid p.network _ r v (record {
  nonempty = put-ne-nil p.name _ (net_of p.network r);
  distinct = put-IsMap p.name _ _ (net_of-IsMap p.network r v);
  named = λ name rec h. elim (Bool-cases (str_eq p.name name)) [
    | inl e ↦
        let same : rec ≡ record { peer = p; conn = conn } =
          ground
            (arith, get-put p.name name (record { peer = p; conn = conn }) (net_of p.network r)) in
        rw same (refl, str_eq_sound p.name name e)
    | inr e ↦ find-named p.network name r rec v (unfold find in rw (get-put, e) at h)
  ];
})

-- Taking a peer out of its network, the network with it if it was the last one.
module _ (network name : Bytes) (net : Map Record) (r : Registry) (v : IsValid r)
    (at : get network r.m ≡ some net) where
  good : IsNet network net
  good = v.nets network net at

  pub drop_peer-IsValid : IsValid (drop_peer network name net r)
  drop_peer-IsValid = elim (Bool-cases (length (delete name net) == 0)) [
    | inl e ↦ rw e (record {
      distinct = delete-IsMap network r.m v.distinct;
      nets = λ network' net' h. elim (Bool-cases (str_eq network network')) [
        | inl same ↦ ground (arith, get-delete network network' r.m v.distinct)
        | inr other ↦
            v.nets network' net' (rw (get-delete network network' r.m v.distinct, other) at h)
      ];
    })
    | inr e ↦ rw e (
        put-IsValid network (delete name net) r v (record {
          nonempty = length-nonzero (delete name net) e;
          distinct = delete-IsMap name net good.distinct;
          named = λ name' rec h. elim (Bool-cases (str_eq name name')) [
            | inl same ↦ ground (arith, get-delete name name' net good.distinct)
            | inr other ↦
                good.named name' rec (rw (get-delete name name' net good.distinct, other) at h)
          ];
        }))
  ]

  pub find-drop_peer :
      (network' name' : Bytes)
      → find network' name' (drop_peer network name net r)
        ≡ (if str_eq network network' && str_eq name name' then none else find network' name' r)
  unfolding find get
  find-drop_peer network' name' = elim (Bool-cases (length (delete name net) == 0)) [
    | inl e ↦ rw e (
        ground (
          arith,
          length-zero (delete name net) e,
          get-delete network network' r.m v.distinct,
          get-delete name name' net good.distinct,
          str_eq_iff network network',
        ))
    | inr e ↦ rw e (
        ground (
          arith,
          get-put network network' (delete name net) r.m,
          get-delete name name' net good.distinct,
          str_eq_iff network network',
        ))
  ]
