-- ===== src/Hub/Agent.antt =====
-- cmd/netso-hub/main.go: `handleAgent` keeps the invariant.
use mathlib.Core.Path.{ap₂}
use netso.Common.{
  suc, ◌≤◌, ◌≡◌, ap, ◌∙◌, Bool, false, ◌||◌, ◌&&◌, some, [], arith, inl, inr, Bool-cases,
  Option-cases,
}
use netso.Common.Bytes.{Bytes, str_eq, str_eq_both}
use netso.Registry
use netso.Registry.{Record, Peer, Conn, Any}
use netso.Registry.Lookup.{find, find-add, add-IsValid}
use netso.Registry.Methods.{conn_of, add_prev}
use netso.Hub.{Hub, close_any, handle_agent}
use netso.Hub.Invariant.{
  Role, Roles, assign, IsWaiting, IsValid, Keeps, Keeps-unborn, Keeps-waiting, Keeps-refl,
  Keeps-trans, assign_self, assign_other, dropped-Keeps, relayed-Keeps, close-IsValid,
  IsWaiting-assign, fresh-assign, waiting_elsewhere,
}

module _ (network name pubkey : Bytes) (h : Hub) (role : Roles) (v : IsValid h role) where
  abbrev peer : Peer
  peer = record { network = network; name = name; pubkey = pubkey }

  -- The hub after `Add`, whatever became of the connection that was replaced.
  added :
      (role' : Roles)
      → Keeps role role'
      → ((network' name' : Bytes) (rec : Record)
          → find network' name' h.reg ≡ some rec
          → (str_eq network network' && str_eq name name') ≡ false
          → IsWaiting role' network' name' rec)
      → ((c : Conn) → h.next ≤ c → role' c ≡ Role.unborn)
      → IsValid
          (record h { reg = (Registry.add peer (some h.next) h.reg).0; next = suc h.next })
          (assign h.next (Role.waiting network name) role')
  added role' k others fresh =
      let c = h.next in
      let keeps =
        Keeps-trans k (Keeps-unborn role' c (Role.waiting network name) (fresh c (omega arith))) in
      record {
        reg = add-IsValid peer (some c) h.reg v.reg;
        audit = v.audit;
        registered = λ network' name' rec at.
            elim (Bool-cases (str_eq network network' && str_eq name name')) [
              | inl same ↦
                  let (same_network, same_name) = str_eq_both network network' name name' same in
                  let found : rec ≡ record { peer = peer; conn = some c } =
                    ground (arith, find-add peer (some c) h.reg network' name') in
                  record {
                    conn = c;
                    there = ap (λ x. x.conn) found;
                    waits =
                        assign_self c (Role.waiting network name) role'
                        ∙ ap₂ Role.waiting same_network same_name;
                  }
              | inr other ↦
                  IsWaiting-assign role' c (Role.waiting network name) network' name' rec
                    (λ e. cc (fresh c (omega arith)))
                    (others network' name' rec
                      (ground (arith, find-add peer (some c) h.reg network' name')) other)
            ];
        relayed =
            relayed-Keeps h.audit.sessions h.audit.sessions h.relays keeps (λ s o. o) v.relayed;
        sessions = v.sessions;
        counted = v.counted;
        dropped = dropped-Keeps h.closed keeps v.dropped;
        fresh = fresh-assign role' c (Role.waiting network name) fresh;
      }

  -- Every outcome: a request that is refused or not upgraded leaves the hub as it is; otherwise the
  -- new connection waits under its name, and the one that it replaces is closed.
  registered_agent :
      (role' : Roles) × IsValid
        (close_any
          (conn_of (find network name h.reg))
          (record h { reg = (Registry.add peer (some h.next) h.reg).0; next = suc h.next }))
        role'
  registered_agent = elim (Option-cases (find network name h.reg)) [
    | inl nobody ↦
        let role' = assign h.next (Role.waiting network name) role in
        (
          role',
          rw nobody (
              added role (Keeps-refl role)
                (λ network' name' rec at _. v.registered network' name' rec at) v.fresh),
        )
    | inr (old, at) ↦
        let w = v.registered network name old at in
        let role₁ = assign w.conn Role.closed role in
        let role' = assign h.next (Role.waiting network name) role₁ in
        let fresh : (c : Conn) → h.next ≤ c → role₁ c ≡ Role.unborn = λ c le.
          assign_other w.conn c Role.closed role (λ q. cc (w.waits, v.fresh c le)) ∙ v.fresh c le in
        let shut : role₁ w.conn ≡ Role.closed = assign_self w.conn Role.closed role in
        let valid =
          added role₁ (Keeps-waiting role w.conn Role.closed w.waits)
            (λ network' name' rec at' other.
              IsWaiting-assign role w.conn Role.closed network' name' rec
                (waiting_elsewhere network' name' w.waits other)
                (v.registered network' name' rec at'))
            fresh in
        let still : role' w.conn ≡ Role.closed =
          assign_other h.next w.conn (Role.waiting network name) role₁
            (λ q. cc (shut, fresh h.next (omega arith)))
          ∙ shut in
        (role', rw (at, conn_of, w.there) (close-IsValid _ role' w.conn valid still))
  ]

  pub handle_agent-IsValid :
      (upgrade : Bool)
      → (role' : Roles) × IsValid (handle_agent network name pubkey upgrade h).0 role'
  unfolding handle_agent
  handle_agent-IsValid upgrade = elim (Bool-cases (str_eq network [] || str_eq name [])) [
    | inl missing ↦ (role, rw missing v)
    | inr given ↦ elim (Bool-cases upgrade) [
      | inl done ↦
          let (role', valid) = registered_agent in
          (role', rw (given, done, add_prev peer (some h.next) h.reg) valid)
      | inr failed ↦ (role, rw (given, failed) v)
    ]
  ]
