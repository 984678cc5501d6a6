-- ===== src/Hub/Done.antt =====
-- cmd/netso-hub/main.go: the end of a relay, and of its session, keeps the invariant.
use mathlib.Core.Path.{subst}
use mathlib.Core.Option.{some-injective}
use netso.Common.{
  ℕ, zero, suc, ◌==◌, ==_iff, Bool-cases, All-get_elem?, ◌+◌, ◌≡◌, ◌≢◌, refl, sym, ap, ◌∙◌, some,
  List, [], ◌∷◌, length, get_elem?, set, All, arith, inl, inr, Option-cases, get_elem?-set_other,
}
use netso.Registry.{Conn}
use netso.Audit.{Session}
use netso.Audit.Count.{end_once, end-IsValid}
use netso.Hub.{Hub, Relay, remove_at, relay_done}
use netso.Hub.Invariant.{Role, Roles, assign, IsServed, DistinctSessions, IsValid, assign_self}

-- The other relays after one has ended: their ends keep their roles, their sessions stay active.
module _ (role : Roles) (ss : List Session) (r : Relay) (ended : Session) where
  abbrev after : Roles
  after = assign r.agent Role.closed (assign r.client Role.closed role)

  after_other : (c : Conn) → role c ≢ role r.client → role c ≢ role r.agent → after c ≡ role c
  after_other c not_client not_agent = elim (Bool-cases (r.agent == c)) [
    | inl same ↦ absurd (not_agent (sym (ap role ((==_iff r.agent c).0 same))))
    | inr differs ↦ elim (Bool-cases (r.client == c)) [
      | inl same ↦ absurd (not_client (sym (ap role ((==_iff r.client c).0 same))))
      | inr differs' ↦ rw (differs, differs') refl
    ]
  ]

  after_closed : (c : Conn) → IsServed role ss r → role c ≡ Role.closed → after c ≡ Role.closed
  after_closed c sr e = after_other c (λ q. cc (e, sr.client)) (λ q. cc (e, sr.agent)) ∙ e

  dropped_after :
      (l : List Conn)
      → IsServed role ss r
      → All (λ c. role c ≡ Role.closed) l
      → All (λ c. after c ≡ Role.closed) l
  dropped_after [] sr h = tt
  dropped_after (c ∷ l) sr h = (after_closed c sr h.0, dropped_after l sr h.1)

  after_client : after r.client ≡ Role.closed
  after_client = elim (Bool-cases (r.agent == r.client)) [
    | inl same ↦ rw same refl
    | inr differs ↦ rw differs (assign_self r.client Role.closed role)
  ]

  IsServed-other :
      (x : Relay)
      → x.session ≢ r.session
      → IsServed role ss r
      → IsServed role ss x
      → IsServed after (set ss r.session ended) x
  IsServed-other x other sr sx = record {
    client = after_other x.client (λ q. other (cc)) (λ q. cc) ∙ sx.client;
    agent = after_other x.agent (λ q. cc) (λ q. other (cc)) ∙ sx.agent;
    open_session = record {
      session = sx.open_session.session;
      stored =
          get_elem?-set_other ss r.session x.session ended (λ q. other (sym q))
          ∙ sx.open_session.stored;
      active = sx.open_session.active;
    };
  }

  IsServed-rest :
      (l : List Relay)
      → All (λ x. x.session ≢ r.session) l
      → IsServed role ss r
      → All (IsServed role ss) l
      → All (IsServed after (set ss r.session ended)) l
  IsServed-rest [] d sr sl = tt
  IsServed-rest (x ∷ l) d sr sl = (IsServed-other x d.0 sr sl.0, IsServed-rest l d.1 sr sl.1)

  IsServed-done :
      (l : List Relay) (i : ℕ)
      → get_elem? l i ≡ some r
      → DistinctSessions l
      → All (IsServed role ss) l
      → All (IsServed after (set ss r.session ended)) (remove_at i l)
  IsServed-done [] i at d s = tt
  IsServed-done (x ∷ l) zero at d s =
      let same : x ≡ r = some-injective x r at in
      IsServed-rest l (subst (λ y. All (λ z. z.session ≢ y.session) l) same d.0)
        (subst (IsServed role ss) same s.0) s.1
  IsServed-done (x ∷ l) (suc i) at d s = (
    IsServed-other x (λ q. All-get_elem? (λ z. z.session ≢ x.session) l i d.0 at (sym q))
        (All-get_elem? (IsServed role ss) l i s.1 at) s.0,
    IsServed-done l i at d.1 s.1,
  )

All-remove_at {ℓ} :
    {A : Type ℓ} (P : A → Type 0) (l : List A) (i : ℕ) → All P l → All P (remove_at i l)
All-remove_at P [] i h = tt
All-remove_at P (x ∷ l) zero h = h.1
All-remove_at P (x ∷ l) (suc i) h = (h.0, All-remove_at P l i h.1)

DistinctSessions-remove_at :
    (l : List Relay) (i : ℕ) → DistinctSessions l → DistinctSessions (remove_at i l)
DistinctSessions-remove_at [] i d = tt
DistinctSessions-remove_at (x ∷ l) zero d = d.1
DistinctSessions-remove_at (x ∷ l) (suc i) d =
    (All-remove_at (λ r'. r'.session ≢ x.session) l i d.0, DistinctSessions-remove_at l i d.1)

length-remove_at {ℓ} :
    {A : Type ℓ} (l : List A) (i : ℕ) {x : A}
    → get_elem? l i ≡ some x
    → length (remove_at i l) + 1 ≡ length l
length-remove_at [] i h = ground arith
length-remove_at (y ∷ l) zero h = omega arith
length-remove_at (y ∷ l) (suc i) h = omega (arith, length-remove_at l i h)

pub relay_done-IsValid :
    (now i : ℕ) (h : Hub) (role : Roles)
    → now ≢ 0
    → IsValid h role
    → (role' : Roles) × IsValid (relay_done now i h) role'
unfolding relay_done
relay_done-IsValid now i h role timed v = elim (Option-cases (get_elem? h.relays i)) [
  | inl e ↦ (role, rw (e, relay_done) v)
  | inr (r, e) ↦
      let served = All-get_elem? (IsServed role h.audit.sessions) h.relays i v.relayed e in
      let o = served.open_session in
      let ended = record o.session { ended = now } in
      let (stored, falls) =
        end_once now r.session h.audit o.session v.audit timed o.stored o.active in
      let role' = after role h.audit.sessions r ended in
      let other = after_other role h.audit.sessions r ended in
      (
        role',
        rw (e, relay_done)
            (record {
              reg = v.reg;
              audit = end-IsValid now (some r.session) h.audit timed v.audit;
              registered = λ network name rec at.
                  let w = v.registered network name rec at in
                  record {
                    conn = w.conn;
                    there = w.there;
                    waits =
                        other w.conn (λ q. cc (w.waits, served.client))
                          (λ q. cc (w.waits, served.agent))
                        ∙ w.waits;
                  };
              relayed =
                  rw stored
                    (IsServed-done role h.audit.sessions r ended h.relays i e v.sessions v.relayed);
              sessions = DistinctSessions-remove_at h.relays i v.sessions;
              counted = omega (arith, falls, length-remove_at h.relays i e, v.counted);
              dropped = (
                assign_self r.agent Role.closed (assign r.client Role.closed role),
                (
                  after_client role h.audit.sessions r ended,
                  dropped_after role h.audit.sessions r ended h.closed served v.dropped,
                ),
              );
              fresh = λ c le.
                  other c (λ q. cc (v.fresh c le, served.client))
                    (λ q. cc (v.fresh c le, served.agent))
                  ∙ v.fresh c le;
            }),
      )
]
