-- ===== src/Registry/Methods.antt =====
-- internal/registry/registry.go: Add, Remove and Take by what can be found afterwards.
use mathlib.Core.Option
use netso.Common.{
  ◌≡◌, Bool, true, false, ◌&&◌, Option, none, some, arith, if◌then◌else◌, inl, inr, Bool-cases,
  Option-cases,
}
use netso.Common.Bytes.{Bytes, str_eq, str_eq_iff}
use netso.Map.{Map, get}
use netso.Registry.{Peer, Any, any_eq, Record, Registry, add, drop_peer, remove, take}
use netso.Registry.Lookup.{find, IsValid, drop_peer-IsValid, find-drop_peer}

-- The connection of a record that may be missing.
abbrev pub conn_of : Option Record → Any
conn_of none = none
conn_of (some rec) = rec.conn

-- Whether the record that may be missing holds this connection.
abbrev pub holds : Any → Option Record → Bool
holds c none = false
holds c (some rec) = any_eq rec.conn c

pub add_prev :
    (p : Peer) (conn : Any) (r : Registry) → (add p conn r).1 ≡ conn_of (find p.network p.name r)
unfolding add find
add_prev p conn r = ground arith

pub take_result :
    (network name : Bytes) (r : Registry)
    → (take network name r).1 ≡ Option.map (λ rec. (rec.peer, rec.conn)) (find network name r)
unfolding take find get
take_result network name r = ground arith

-- Where a record that is found stands in the nested map.
find-some :
    (network name : Bytes) (r : Registry) {rec : Record}
    → find network name r ≡ some rec
    → (net : Map Record) × (get network r.m ≡ some net) × (get name net ≡ some rec)
unfolding find get
find-some network name r h = elim (Option-cases (get network r.m)) [
  | inl e ↦ ground arith
  | inr (net, e) ↦ (net, e, ground arith)
]

pub take_miss :
    (network name : Bytes) (r : Registry)
    → find network name r ≡ none
    → take network name r ≡ (r, none)
unfolding take find get
take_miss network name r h = ground arith

take_hit :
    (network name : Bytes) (r : Registry) {net : Map Record} {rec : Record}
    → get network r.m ≡ some net
    → get name net ≡ some rec
    → take network name r ≡ (drop_peer network name net r, some (rec.peer, rec.conn))
unfolding take
take_hit network name r e e' = ground arith

remove_miss :
    (network name : Bytes) (conn : Any) (r : Registry)
    → holds conn (find network name r) ≡ false
    → remove network name conn r ≡ r
unfolding remove find get
remove_miss network name conn r h = ground arith

remove_hit :
    (network name : Bytes) (conn : Any) (r : Registry) {net : Map Record} {rec : Record}
    → get network r.m ≡ some net
    → get name net ≡ some rec
    → any_eq rec.conn conn ≡ true
    → remove network name conn r ≡ drop_peer network name net r
unfolding remove
remove_hit network name conn r e e' h = ground arith

module _ (network name : Bytes) (r : Registry) (v : IsValid r) where
  pub take-IsValid : IsValid (take network name r).0
  take-IsValid = elim (Option-cases (find network name r)) [
    | inl e ↦ rw (take_miss network name r e) v
    | inr (rec, e) ↦
        let (net, at, hit) = find-some network name r e in
        rw (take_hit network name r at hit) (drop_peer-IsValid network name net r v at)
  ]

  pub find-take :
      (network' name' : Bytes)
      → find network' name' (take network name r).0
        ≡ (if str_eq network network' && str_eq name name' then none else find network' name' r)
  find-take network' name' = elim (Option-cases (find network name r)) [
    | inl e ↦
        rw (take_miss network name r e)
          (ground (arith, str_eq_iff network network', str_eq_iff name name'))
    | inr (rec, e) ↦
        let (net, at, hit) = find-some network name r e in
        rw (take_hit network name r at hit) (find-drop_peer network name net r v at network' name')
  ]

  module _ (conn : Any) where
    holds-some :
        holds conn (find network name r) ≡ true
        → (rec : Record) × (find network name r ≡ some rec) × (any_eq rec.conn conn ≡ true)
    holds-some h = elim (Option-cases (find network name r)) [
      | inl e ↦ ground arith
      | inr (rec, e) ↦ (rec, e, ground arith)
    ]

    pub remove-IsValid : IsValid (remove network name conn r)
    remove-IsValid = elim (Bool-cases (holds conn (find network name r))) [
      | inl h ↦
          let (rec, e, same) = holds-some h in
          let (net, at, hit) = find-some network name r e in
          rw (remove_hit network name conn r at hit same)
            (drop_peer-IsValid network name net r v at)
      | inr h ↦ rw (remove_miss network name conn r h) v
    ]

    pub find-remove :
        (network' name' : Bytes)
        → find network' name' (remove network name conn r) ≡ (
            if str_eq network network' && str_eq name name' && holds conn (find network name r)
            then none
            else find network' name' r)
    find-remove network' name' = elim (Bool-cases (holds conn (find network name r))) [
      | inl h ↦
          let (rec, e, same) = holds-some h in
          let (net, at, hit) = find-some network name r e in
          rw (remove_hit network name conn r at hit same)
            (ground (arith, find-drop_peer network name net r v at network' name'))
      | inr h ↦ rw (remove_miss network name conn r h) (ground arith)
    ]
