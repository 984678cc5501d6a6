-- ===== src/Registry/Discovery.antt =====
-- internal/registry/registry.go: List and Networks, against what can be found in the registry.
use mathlib.Core.List.{Perm}
use mathlib.Core.Option
use native.Mathlib.Nat.{ℕ_set}
use netso.Common.{
  suc, ◌==◌, ◌≡◌, refl, ap, ◌∙◌, ◌≢◌, Option, none, some, List, [], ◌∷◌, length, All, arith,
  if◌then◌else◌, inl, inr, Option-cases, false,
}
use netso.Common.Bytes.{Bytes, str_eq, str_eq_iff, str_eq_refl, str_lt_irrefl}
use netso.Map.{Map, get, IsMap}
use netso.Sort.{
  insert, sort_by, IsSorted, HasDistinctKeys, sort_by-IsSorted, sort_by_of_sorted, sort_by-perm_eq,
}
use netso.Registry.{
  Peer, Record, Registry, net_of, count_networks, networks, peers_of, peer_name, list,
}
use netso.Registry.Lookup.{find, IsValid, net_of-IsMap, net_of-some, net_of-none, find-named}

-- The first peer of a list that has the name.
unfoldable pub first_named : Bytes → List Peer → Option Peer
first_named name [] = none
first_named name (p ∷ l) = if str_eq p.name name then some p else first_named name l

first_named-insert :
    (name : Bytes) (p : Peer) (l : List Peer)
    → first_named name (insert peer_name p l)
      ≡ (if str_eq p.name name then some p else first_named name l)
unfolding first_named insert
first_named-insert name p [] = refl
first_named-insert name p (q ∷ l) = ground (
  arith,
  first_named-insert name p l,
  str_eq_iff p.name name,
  str_eq_iff q.name name,
  str_lt_irrefl name,
)

first_named-sort :
    (name : Bytes) (l : List Peer) → first_named name (sort_by peer_name l) ≡ first_named name l
unfolding first_named sort_by
first_named-sort name [] = refl
first_named-sort name (p ∷ l) =
    ground (arith, first_named-insert name p (sort_by peer_name l), first_named-sort name l)

length-insert : (p : Peer) (l : List Peer) → length (insert peer_name p l) ≡ suc (length l)
unfolding insert
length-insert p [] = refl
length-insert p (q ∷ l) = ground (arith, length-insert p l)

length-sort : (l : List Peer) → length (sort_by peer_name l) ≡ length l
unfolding sort_by
length-sort [] = refl
length-sort (p ∷ l) = omega (arith, length-insert p (sort_by peer_name l), length-sort l)

length-peers_of : (net : Map Record) → length (peers_of net) ≡ length net
length-peers_of [] = refl
length-peers_of ((k, rec) ∷ net) = ap suc (length-peers_of net)

-- Every record of the map is under its own name.
abbrev IsNamed : Map Record → Type 0
IsNamed [] = Unit
IsNamed ((k, rec) ∷ net) = (rec.peer.name ≡ k) × IsNamed net

IsNamed-of :
    (net : Map Record)
    → IsMap net
    → ((name : Bytes) (rec : Record) → get name net ≡ some rec → rec.peer.name ≡ name)
    → IsNamed net
unfolding get
IsNamed-of [] h named = tt
IsNamed-of ((k, rec) ∷ net) h named = (
  named k rec (rw (str_eq_refl k)),
  IsNamed-of net h.1 (λ name rec' at. named name rec' (ground (arith, str_eq_iff k name))),
)

first_named-peers_of :
    (name : Bytes) (net : Map Record)
    → IsNamed net
    → first_named name (peers_of net) ≡ Option.map (λ rec. rec.peer) (get name net)
unfolding first_named get
first_named-peers_of name [] h = refl
first_named-peers_of name ((k, rec) ∷ net) h = ground (arith, first_named-peers_of name net h.1)

module _ (network : Bytes) (r : Registry) (v : IsValid r) where
  net_of-IsNamed : IsNamed (net_of network r)
  net_of-IsNamed =
      IsNamed-of (net_of network r) (net_of-IsMap network r v)
        (λ name rec at. (find-named network name r rec v (unfold find in at)).1)

  -- On a valid registry, looking a name up in the list of a network finds the registered peer, and
  -- nothing else.
  pub first_named-list :
      (name : Bytes)
      → first_named name (list network r) ≡ Option.map (λ rec. rec.peer) (find network name r)
  unfolding list find
  first_named-list name =
      first_named-sort name (peers_of (net_of network r))
      ∙ first_named-peers_of name (net_of network r) net_of-IsNamed

  length-list : length (list network r) ≡ length (net_of network r)
  unfolding list
  length-list = length-sort (peers_of (net_of network r)) ∙ length-peers_of (net_of network r)

IsNamed-Apart :
    (name : Bytes) (net : Map Record)
    → get name net ≡ none
    → IsNamed net
    → All (λ q. str_eq name (peer_name q) ≡ false) (peers_of net)
unfolding get
IsNamed-Apart name [] h named = tt
IsNamed-Apart name ((k, rec) ∷ net) h (e, named) = (
  ground (arith, str_eq_iff name rec.peer.name, str_eq_iff k name),
  IsNamed-Apart name net (ground arith) named,
)

IsNamed-distinct :
    (net : Map Record) → IsMap net → IsNamed net → HasDistinctKeys peer_name (peers_of net)
IsNamed-distinct [] h named = tt
IsNamed-distinct ((k, rec) ∷ net) (h, m) (e, named) =
    (rw e (IsNamed-Apart k net h named), IsNamed-distinct net m named)

Peer-set : IsSet Peer
Peer-set = hlevel ℕ_set

get-count :
    (network : Bytes) (m : Map (Map Record))
    → get network (count_networks m) ≡ Option.map length (get network m)
unfolding get
get-count network [] = refl
get-count network ((k, net) ∷ m) = ground (arith, get-count network m)

length-nonzero : (net : Map Record) → net ≢ [] → length net ≢ 0
length-nonzero [] h = absurd (h refl)
length-nonzero (e ∷ net) h = omega arith

module _ (network : Bytes) (r : Registry) (v : IsValid r) where
  -- `List` does not depend on the order in which the map is ranged over, nor on how the sort
  -- works: on a valid registry every list of the network's peers that has no inversion is the same
  -- list.
  pub list_unique :
      {l : List Peer}
      → Perm (peers_of (net_of network r)) l
      → IsSorted peer_name l
      → list network r ≡ l
  unfolding list
  list_unique {l} p sorted =
      sort_by-perm_eq peer_name Peer-set p (
        IsNamed-distinct (net_of network r) (net_of-IsMap network r v) (net_of-IsNamed network r v))
      ∙ sort_by_of_sorted peer_name l sorted

  -- On a valid registry, `Networks` counts the peers that `List` returns, and leaves a network
  -- without peers out.
  pub get-networks :
      get network (networks r)
      ≡ (if length (list network r) == 0 then none else some (length (list network r)))
  unfolding networks
  get-networks = elim (Option-cases (get network r.m)) [
    | inl e ↦
        ground (arith, get-count network r.m, net_of-none network r e, length-list network r v)
    | inr (net, e) ↦ ground (
      arith,
      get-count network r.m,
      net_of-some network r e,
      length-list network r v,
      length-nonzero net (v.nets network net e).nonempty,
    )
  ]

-- `List` is sorted by name.
pub list-IsSorted : (network : Bytes) (r : Registry) → IsSorted peer_name (list network r)
unfolding list
list-IsSorted network r = sort_by-IsSorted peer_name (peers_of (net_of network r))
