-- ===== src/Hub/Threads/Tracking.antt =====
-- cmd/netso-hub/main.go: the roles of the connections when one of them gets another role.
use mathlib.Core.Path.{ap₂}
use netso.Common.{
  ℕ, suc, ◌==◌, ==_iff, ◌≡◌, ◌≢◌, ap, ◌∙◌, subst, false, ◌&&◌, some, List, [], ◌∷◌, All, arith, inl,
  inr, Bool-cases,
}
use netso.Common.Bytes.{Bytes, str_eq, str_eq_both, str_eq_iff}
use netso.Registry
use netso.Registry.{Record, Registry, Peer, Conn, Any}
use netso.Registry.Lookup.{find, find-add, add-IsValid}
use netso.Registry.Methods.{take-IsValid, find-take}
use netso.Hub.Threads.Roles.{Role, Roles, assign, assign_self, assign_other, IsTracked, IsNamed}

pub dropped_kept :
    {role role' : Roles} (l : List Conn)
    → ((c : Conn) → role c ≡ Role.closed → role' c ≡ Role.closed)
    → All (λ c. role c ≡ Role.closed) l
    → All (λ c. role' c ≡ Role.closed) l
dropped_kept [] keeps h = tt
dropped_kept (c ∷ l) keeps h = (keeps c h.0, dropped_kept l keeps h.1)

pub IsNamed-assign :
    (dialled : List (Conn × Bytes × Bytes)) (role : Roles) (c : Conn) (r : Role)
    → ((c' : Conn) → IsNamed dialled c' (role c'))
    → IsNamed dialled c r
    → (c' : Conn) → IsNamed dialled c' (assign c r role c')
IsNamed-assign dialled role c r named here c' = elim (Bool-cases (c == c')) [
  | inl same ↦ rw same (subst (λ d. IsNamed dialled d r) ((==_iff c c').0 same) here)
  | inr other ↦ rw other (named c')
]

pub IsNamed-more :
    (d : Conn × Bytes × Bytes) (dialled : List (Conn × Bytes × Bytes)) (c : Conn) (r : Role)
    → IsNamed dialled c r
    → IsNamed (d ∷ dialled) c r
IsNamed-more d dialled c Role.unborn h = h
IsNamed-more d dialled c (Role.waiting network name) h = inr h
IsNamed-more d dialled c (Role.client i) h = h
IsNamed-more d dialled c (Role.agent i network name) h = inr h
IsNamed-more d dialled c Role.closed h = h

module _ {reg : Registry} {shut : List Conn} {next : Conn} {dialled : List (Conn × Bytes × Bytes)}
    {role : Roles} (v : IsTracked reg shut next dialled role) where
  -- A connection that is closed when its role is.
  pub closed-IsTracked :
      (c : Conn) → role c ≡ Role.closed → IsTracked reg (c ∷ shut) next dialled role
  closed-IsTracked c e = record {
    reg = v.reg;
    registered = v.registered;
    dropped = (e, v.dropped);
    fresh = v.fresh;
    named = v.named;
  }

  -- A connection that is out, and not registered, gets another role.
  module _ (c : Conn) (r : Role) (born : role c ≢ Role.unborn) (out : role c ≢ Role.closed)
      (named : IsNamed dialled c r) where
    -- The same when it is the one registered under the name that goes.
    released-IsTracked :
        (reg' : Registry)
        → Registry.Lookup.IsValid reg'
        → ((network name : Bytes) (rec : Record)
            → find network name reg' ≡ some rec
            → (find network name reg ≡ some rec) × (role c ≢ Role.waiting network name))
        → IsTracked reg' shut next dialled (assign c r role)
    released-IsTracked reg' valid kept = record {
      reg = valid;
      registered = λ network name rec at.
          let (before, other) = kept network name rec at in
          let (c', there, waits) = v.registered network name rec before in
          (c', there, assign_other c c' r role (λ q. other (q ∙ waits)) ∙ waits);
      dropped =
          dropped_kept shut (λ c' e. assign_other c c' r role (λ q. out (q ∙ e)) ∙ e) v.dropped;
      fresh = λ c' le. assign_other c c' r role (λ q. born (q ∙ v.fresh c' le)) ∙ v.fresh c' le;
      named = IsNamed-assign dialled role c r v.named named;
    }

    pub assign-IsTracked :
        ((network name : Bytes) → role c ≢ Role.waiting network name)
        → IsTracked reg shut next dialled (assign c r role)
    assign-IsTracked other =
        released-IsTracked reg v.reg (λ network name rec at. (at, other network name))

  -- `Take` of a name that is found: its connection goes to the goroutine that took it.
  pub take-IsTracked :
      (i : ℕ) (network name : Bytes) (c : Conn)
      → role c ≡ Role.waiting network name
      → IsTracked
          (Registry.take network name reg).0
          shut
          next
          dialled
          (assign c (Role.agent i network name) role)
  take-IsTracked i network name c waits =
      released-IsTracked c (Role.agent i network name) (λ e. cc) (λ e. cc)
        (subst (IsNamed dialled c) waits (v.named c)) (Registry.take network name reg).0
        (take-IsValid network name reg v.reg)
        (λ network' name' rec at.
          let e = find-take network name reg v.reg network' name' in
          (
            ground (arith, e),
            λ q.
                let same_network : network ≡ network' = cc (waits, q) in
                let same_name : name ≡ name' = cc (waits, q) in
                ground (arith, e, str_eq_iff network network', str_eq_iff name name'),
          ))

  -- A new connection, with what it was dialled for if it is an agent's.
  pub born-IsTracked :
      (r : Role) (dialled' : List (Conn × Bytes × Bytes))
      → IsNamed dialled' next r
      → ((c : Conn) (q : Role) → IsNamed dialled c q → IsNamed dialled' c q)
      → IsTracked reg shut (suc next) dialled' (assign next r role)
  born-IsTracked r dialled' named more =
      let unborn = v.fresh next (omega arith) in
      record {
        reg = v.reg;
        registered = λ network name rec at.
            let (c', there, waits) = v.registered network name rec at in
            (c', there, assign_other next c' r role (λ q. cc (unborn, waits)) ∙ waits);
        dropped =
            dropped_kept shut (λ c' e. assign_other next c' r role (λ q. cc (unborn)) ∙ e)
              v.dropped;
        fresh = λ c' le.
            let differs : (next == c') ≡ false = ground arith in
            rw differs (v.fresh c' (omega arith));
        named = IsNamed-assign dialled' role next r (λ c'. more c' (role c') (v.named c')) named;
      }

-- `Add` is seen as a `Take` of the name and the new connection under it.
module _ {reg : Registry} {shut : List Conn} {next : Conn} {dialled : List (Conn × Bytes × Bytes)}
    {role : Roles} (i : ℕ) (network name pubkey : Bytes) (c : Conn)
    (valid : Registry.Lookup.IsValid reg)
    (v : IsTracked (Registry.take network name reg).0 shut next dialled role)
    (mine : role c ≡ Role.agent i network name) where
  abbrev peer : Peer
  peer = record { network = network; name = name; pubkey = pubkey }

  pub put-IsTracked :
      IsTracked
        (Registry.add peer (some c) reg).0
        shut
        next
        dialled
        (assign c (Role.waiting network name) role)
  put-IsTracked = record {
    reg = add-IsValid peer (some c) reg valid;
    registered = λ network' name' rec at.
        elim (Bool-cases (str_eq network network' && str_eq name name')) [
          | inl same ↦
              let (same_network, same_name) = str_eq_both network network' name name' same in
              let found : rec ≡ record { peer = peer; conn = some c } =
                ground (arith, find-add peer (some c) reg network' name') in
              (
                c,
                ap (λ x. x.conn) found,
                assign_self c (Role.waiting network name) role
                    ∙ ap₂ Role.waiting same_network same_name,
              )
          | inr other ↦
              let e = find-take network name reg valid network' name' in
              let f = find-add peer (some c) reg network' name' in
              let before : find network' name' (Registry.take network name reg).0 ≡ some rec =
                ground (arith, e, f) in
              let (c', there, waits) = v.registered network' name' rec before in
              (
                c',
                there,
                assign_other c c' (Role.waiting network name) role (λ q. cc (mine, waits)) ∙ waits,
              )
        ];
    dropped =
        dropped_kept shut
          (λ c' e. assign_other c c' (Role.waiting network name) role (λ q. cc (mine)) ∙ e)
          v.dropped;
    fresh = λ c' le.
        assign_other c c' (Role.waiting network name) role (λ q. cc (mine, v.fresh c' le))
        ∙ v.fresh c' le;
    named =
        IsNamed-assign dialled role c (Role.waiting network name) v.named
          (subst (IsNamed dialled c) mine (v.named c));
  }
