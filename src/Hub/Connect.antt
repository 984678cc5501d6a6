-- ===== src/Hub/Connect.antt =====
-- cmd/netso-hub/main.go: `handleConnect`, up to the relay, keeps the invariant and never panics.
use mathlib.Core.Option
use netso.Common.{
  ℕ, suc, ◌≤◌, ◌≡◌, ◌≢◌, refl, ap, ◌∙◌, Bool, true, false, ◌||◌, ◌&&◌, none, some, List, [], ◌∷◌,
  ◌++◌, length, All, All-append, arith, inl, inr, Bool-cases, Option-cases, get_elem?-append,
  get_elem?-last, get_elem?-lt, length-append,
}
use netso.Common.Bytes.{Bytes, codes, str_eq}
use netso.Registry
use netso.Registry.{Record, Conn}
use netso.Registry.Lookup.{find}
use netso.Registry.Methods.{take_result, take_miss, take-IsValid, find-take}
use netso.Audit
use netso.Audit.{Log, Session, Handle, is_active}
use netso.Audit.Count.{start-IsValid}
use netso.Hub.{
  Hub, Relay, Response, bad_request, upgrade_failed, upgraded, panicked, handle_connect,
}
use netso.Hub.Invariant.{
  Role, Roles, assign, IsOpen, IsServed, DistinctSessions, IsWaiting, IsValid, Keeps, Keeps-unborn,
  Keeps-waiting, Keeps-trans, assign_self, assign_other, dropped-Keeps, relayed-Keeps,
  IsWaiting-assign, fresh-assign, waiting_elsewhere,
}

start_session :
    (network peer : Bytes) (now : ℕ) (l : Log)
    → (Audit.start now network peer l).1 ≡ length l.sessions
unfolding Audit.start
start_session network peer now l = refl

-- A session that is active stays so when another is started.
pub IsOpen-append :
    (ss : List Session) (x : Session) (s : Handle) → IsOpen s ss → IsOpen s (ss ++ x ∷ [])
IsOpen-append ss x s o = record {
  session = o.session;
  stored = get_elem?-append ss (x ∷ []) s o.stored;
  active = o.active;
}

-- The next session is not yet served.
DistinctSessions-snoc :
    (role : Roles) (ss : List Session) (l : List Relay) (r : Relay)
    → All (IsServed role ss) l
    → r.session ≡ length ss
    → DistinctSessions l
    → DistinctSessions (l ++ r ∷ [])
DistinctSessions-snoc role ss [] r served e d = (tt, tt)
DistinctSessions-snoc role ss (x ∷ l) r served e d = (
  All-append (λ r'. r'.session ≢ x.session) l (r ∷ []) d.0
      ((λ q. absurd (omega (arith, get_elem?-lt ss x.session served.0.open_session.stored))), tt),
  DistinctSessions-snoc role ss l r served.1 e d.1,
)

module _ (now : ℕ) (network peer : Bytes) (h : Hub) (role : Roles) (v : IsValid h role) where
  -- The hub when the agent was found: the session starts and the relay begins.
  abbrev pub brokered : Conn → Hub
  brokered agent = record h {
    reg = (Registry.take network peer h.reg).0;
    next = suc h.next;
    audit = (Audit.start now network peer h.audit).0;
    relays =
        h.relays
        ++ record { client = h.next; agent = agent; session = length h.audit.sessions } ∷ [];
  }

  brokered-IsValid :
      (rec : Record)
      → find network peer h.reg ≡ some rec
      → (w : IsWaiting role network peer rec) → (role' : Roles) × IsValid (brokered w.conn) role'
  unfolding Audit.start is_active
  brokered-IsValid rec at w =
      let s = length h.audit.sessions in
      let c = h.next in
      let role₁ = assign w.conn (Role.agent s) role in
      let role' = assign c (Role.client s) role₁ in
      let unborn₁ : (d : Conn) → c ≤ d → role₁ d ≡ Role.unborn = λ d le.
        assign_other w.conn d (Role.agent s) role (λ q. cc (w.waits, v.fresh d le))
        ∙ v.fresh d le in
      let agent₁ : role₁ w.conn ≡ Role.agent s = assign_self w.conn (Role.agent s) role in
      let keeps : Keeps role role' =
        Keeps-trans (Keeps-waiting role w.conn (Role.agent s) w.waits)
          (Keeps-unborn role₁ c (Role.client s) (unborn₁ c (omega arith))) in
      let new : Session = record { network = network; peer = peer; started = now; ended = 0 } in
      let relay : Relay = record { client = c; agent = w.conn; session = s } in
      (
        role',
        record {
          reg = take-IsValid network peer h.reg v.reg;
          audit = start-IsValid now network peer h.audit v.audit;
          registered = λ network' name' rec' at'.
              let other : (str_eq network network' && str_eq peer name') ≡ false =
                ground (arith, find-take network peer h.reg v.reg network' name') in
              let found : find network' name' h.reg ≡ some rec' =
                ground (arith, find-take network peer h.reg v.reg network' name') in
              IsWaiting-assign role₁ c (Role.client s) network' name' rec'
                (λ e. cc (unborn₁ c (omega arith)))
                (IsWaiting-assign role w.conn (Role.agent s) network' name' rec'
                  (waiting_elsewhere network' name' w.waits other)
                  (v.registered network' name' rec' found));
          relayed =
              All-append (IsServed role' (h.audit.sessions ++ new ∷ [])) h.relays _
                (relayed-Keeps h.audit.sessions (h.audit.sessions ++ new ∷ []) h.relays keeps
                  (IsOpen-append h.audit.sessions new) v.relayed)
                (
                  record {
                    client = assign_self c (Role.client s) role₁;
                    agent =
                        assign_other c w.conn (Role.client s) role₁
                          (λ q. cc (agent₁, unborn₁ c (omega arith)))
                        ∙ agent₁;
                    open_session = record {
                      session = new;
                      stored = get_elem?-last h.audit.sessions new;
                      active = refl;
                    };
                  },
                  tt,
                );
          sessions =
              DistinctSessions-snoc role h.audit.sessions h.relays _ v.relayed refl v.sessions;
          counted = omega (arith, length-append h.relays (relay ∷ []), v.counted);
          dropped = dropped-Keeps h.closed keeps v.dropped;
          fresh = fresh-assign role₁ c (Role.client s) unborn₁;
        },
      )

  -- The hub when nobody waits under the name: the client is closed.
  missed-IsValid :
      (role' : Roles) × IsValid (record h { next = suc h.next; closed = h.next ∷ h.closed }) role'
  missed-IsValid =
      let c = h.next in
      let role' = assign c Role.closed role in
      let unborn_next = v.fresh c (omega arith) in
      let keeps = Keeps-unborn role c Role.closed unborn_next in
      (
        role',
        record {
          reg = v.reg;
          audit = v.audit;
          registered = λ network' name' rec at.
              IsWaiting-assign role c Role.closed network' name' rec (λ e. cc (unborn_next))
                (v.registered network' name' rec at);
          relayed =
              relayed-Keeps h.audit.sessions h.audit.sessions h.relays keeps (λ s o. o) v.relayed;
          sessions = v.sessions;
          counted = v.counted;
          dropped = (assign_self c Role.closed role, dropped-Keeps h.closed keeps v.dropped);
          fresh = fresh-assign role c Role.closed v.fresh;
        },
      )

  abbrev relay_with : Conn → Handle → Hub × Response
  relay_with agent session = (
    record h {
      reg = (Registry.take network peer h.reg).0;
      next = suc h.next;
      audit = (Audit.start now network peer h.audit).0;
      relays = h.relays ++ record { client = h.next; agent = agent; session = session } ∷ [];
    },
    upgraded h.next,
  )

  -- What `handleConnect` does with the query given and the client upgraded.
  pub connect_found :
      (rec : Record)
      → find network peer h.reg ≡ some rec
      → (w : IsWaiting role network peer rec) → str_eq network [] || str_eq peer [] ≡ false
      → handle_connect now network peer true h ≡ (brokered w.conn, upgraded h.next)
  unfolding handle_connect
  connect_found rec at w given =
      let e : (Registry.take network peer h.reg).1 ≡ some (rec.peer, some w.conn) =
        take_result network peer h.reg
        ∙ ap (Option.map (λ r. (r.peer, r.conn))) at
        ∙ ap (λ c. some (rec.peer, c)) w.there in
      rw (given, e) (ap (relay_with w.conn) (start_session network peer now h.audit))

  pub connect_missed :
      find network peer h.reg ≡ none
      → str_eq network [] || str_eq peer [] ≡ false
      → handle_connect now network peer true h
        ≡ (record h { next = suc h.next; closed = h.next ∷ h.closed }, upgraded h.next)
  unfolding handle_connect
  connect_missed at given = rw (given, take_miss network peer h.reg at) refl

  connect_refused :
      (upgrade : Bool)
      → (str_eq network [] || str_eq peer []) ≡ true
      → handle_connect now network peer upgrade h
        ≡ (h, bad_request (codes "network and peer are required"))
  unfolding handle_connect
  connect_refused upgrade missing = rw missing refl

  connect_failed :
      (str_eq network [] || str_eq peer []) ≡ false
      → handle_connect now network peer false h ≡ (h, upgrade_failed)
  unfolding handle_connect
  connect_failed given = rw given refl

  pub handle_connect-IsValid :
      (upgrade : Bool)
      → (role' : Roles) × IsValid (handle_connect now network peer upgrade h).0 role'
  handle_connect-IsValid upgrade = elim (Bool-cases (str_eq network [] || str_eq peer [])) [
    | inl missing ↦ (role, rw (connect_refused upgrade missing) v)
    | inr given ↦ elim (Bool-cases upgrade) [
      | inr failed ↦ (role, rw (failed, connect_failed given) v)
      | inl done ↦ elim (Option-cases (find network peer h.reg)) [
        | inl at ↦
            let (role', valid) = missed-IsValid in (role', rw (done, connect_missed at given) valid)
        | inr (rec, at) ↦
            let w = v.registered network peer rec at in
            let (role', valid) = brokered-IsValid rec at w in
            (role', rw (done, connect_found rec at w given) valid)
      ]
    ]
  ]

  -- A connect on a valid hub does not panic.
  pub handle_connect-ne-panicked :
      (upgrade : Bool) → (handle_connect now network peer upgrade h).1 ≢ panicked
  handle_connect-ne-panicked upgrade = elim (Bool-cases (str_eq network [] || str_eq peer [])) [
    | inl missing ↦ rw (connect_refused upgrade missing) (λ e. ground arith)
    | inr given ↦ elim (Bool-cases upgrade) [
      | inr failed ↦ rw (failed, connect_failed given) (λ e. ground arith)
      | inl done ↦ elim (Option-cases (find network peer h.reg)) [
        | inl at ↦ rw (done, connect_missed at given) (λ e. ground arith)
        | inr (rec, at) ↦
            rw (done, connect_found rec at (v.registered network peer rec at) given)
              (λ e. ground arith)
      ]
    ]
  ]
