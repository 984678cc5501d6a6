-- ===== src/Hub/Brokering.antt =====
-- cmd/netso-hub/main.go: what an agent and the clients that ask for it get.
use mathlib.Core.Option.{some-injective}
use netso.Common.{
  ℕ, suc, ◌≡◌, refl, ap, ◌∙◌, true, false, ◌||◌, none, some, List, [], ◌∷◌, ◌++◌, length, All,
  arith,
}
use netso.Common.Bytes.{Bytes, str_eq, str_eq_iff}
use netso.Registry
use netso.Registry.{Registry, Record, Peer, Conn, Any}
use netso.Registry.Lookup.{find, find-add}
use netso.Registry.Methods.{find-take}
use netso.Hub.{Hub, Event, close_any, handle_agent, handle_connect, new_hub, run}
use netso.Hub.Invariant.{Roles, IsValid}
use netso.Hub.Agent.{handle_agent-IsValid}
use netso.Hub.Connect.{handle_connect-IsValid, connect_found, connect_missed}
use netso.Hub.Safety.{IsTimed, reachable-IsValid}

-- What closing a connection leaves alone.
close_any_rest :
    (c : Any) (h : Hub)
    → ((close_any c h).reg ≡ h.reg)
      × ((close_any c h).relays ≡ h.relays)
      × ((close_any c h).next ≡ h.next)
      × ((close_any c h).audit ≡ h.audit)
close_any_rest none h = (refl, refl, refl, refl)
close_any_rest (some c) h = (refl, refl, refl, refl)

module _ (network name pubkey : Bytes) (h : Hub)
    (given : str_eq network [] || str_eq name [] ≡ false) where
  abbrev pub peer : Peer
  peer = record { network = network; name = name; pubkey = pubkey }

  -- `handleAgent` with its names given and its upgrade done.
  with_agent :
      (handle_agent network name pubkey true h).0
      ≡ close_any
          (Registry.add peer (some h.next) h.reg).1
          (record h { reg = (Registry.add peer (some h.next) h.reg).0; next = suc h.next })
  unfolding handle_agent
  with_agent = rw given refl

  agent_rest :
      let h₁ = (handle_agent network name pubkey true h).0 in
      (h₁.reg ≡ (Registry.add peer (some h.next) h.reg).0)
      × (h₁.relays ≡ h.relays)
      × (h₁.next ≡ suc h.next)
      × (h₁.audit ≡ h.audit)
  agent_rest = rw with_agent (
      close_any_rest (Registry.add peer (some h.next) h.reg).1
        (record h { reg = (Registry.add peer (some h.next) h.reg).0; next = suc h.next }))

  pub agent_found :
      find network name (handle_agent network name pubkey true h).0.reg
      ≡ some (record { peer = peer; conn = some h.next })
  agent_found =
      rw (agent_rest.0, find-add peer (some h.next) h.reg network name)
        (ground (arith, str_eq_iff network network, str_eq_iff name name))

-- The agent is gone once it is brokered.
taken_missing :
    (network name : Bytes) (r : Registry)
    → Registry.Lookup.IsValid r
    → find network name (Registry.take network name r).0 ≡ none
taken_missing network name r v = ground (
  arith,
  find-take network name r v network name,
  str_eq_iff network network,
  str_eq_iff name name,
)

module _ (now now' : ℕ) (network name pubkey : Bytes) (h : Hub) (role : Roles) (v : IsValid h role)
    (given : str_eq network [] || str_eq name [] ≡ false) where
  agent_brokered :
      let h₁ = (handle_agent network name pubkey true h).0 in
      let h₂ = (handle_connect now network name true h₁).0 in
      let h₃ = (handle_connect now' network name true h₂).0 in
      (h₂.relays
        ≡ h.relays
          ++ record { client = suc h.next; agent = h.next; session = length h.audit.sessions } ∷ [])
      × (h₃.relays ≡ h₂.relays)
      × (h₃.closed ≡ suc (suc h.next) ∷ h₂.closed)
  agent_brokered =
      let h₁ = (handle_agent network name pubkey true h).0 in
      let (role₁, v₁) = handle_agent-IsValid network name pubkey h role v true in
      let (reg₁, relays₁, next₁, audit₁) = agent_rest network name pubkey h given in
      let rec : Record = record {
        peer = record { network = network; name = name; pubkey = pubkey };
        conn = some h.next;
      } in
      let found = agent_found network name pubkey h given in
      let w = v₁.registered network name rec found in
      let conn : h.next ≡ w.conn = some-injective h.next w.conn w.there in
      let e₂ = ap (λ x. x.0) (connect_found now network name h₁ role₁ v₁ rec found w given) in
      let (role₂, v₂) = handle_connect-IsValid now network name h₁ role₁ v₁ true in
      let h₂ = (handle_connect now network name true h₁).0 in
      let gone : find network name h₂.reg ≡ none =
        ap (λ x. find network name x.reg) e₂ ∙ taken_missing network name h₁.reg v₁.reg in
      let e₃ = ap (λ x. x.0) (connect_missed now' network name h₂ role₂ v₂ gone given) in
      (
        ap (λ x. x.relays) e₂ ∙ rw (relays₁, next₁, audit₁, conn) refl,
        ap (λ x. x.relays) e₃,
        ap (λ x. x.closed) e₃ ∙ ap (λ n. n ∷ h₂.closed) (ap (λ x. x.next) e₂ ∙ ap suc next₁),
      )

-- Whoever asks first for an agent that has just connected, after any requests and ends of relays,
-- gets a relay to exactly that agent, in a new session, and whoever asks next finds nobody and is
-- closed. The names are given, the upgrades succeed, and no relay ends at the zero time.
pub agent-connect :
    (es : List Event) (now now' : ℕ) (network name pubkey : Bytes)
    → All IsTimed es
    → str_eq network [] || str_eq name [] ≡ false
    → let h = run es new_hub in
      let h₁ = (handle_agent network name pubkey true h).0 in
      let h₂ = (handle_connect now network name true h₁).0 in
      let h₃ = (handle_connect now' network name true h₂).0 in
      (h₂.relays
        ≡ h.relays
          ++ record { client = suc h.next; agent = h.next; session = length h.audit.sessions } ∷ [])
      × (h₃.relays ≡ h₂.relays)
      × (h₃.closed ≡ suc (suc h.next) ∷ h₂.closed)
agent-connect es now now' network name pubkey t given =
    let (role, v) = reachable-IsValid es t in
    agent_brokered now now' network name pubkey (run es new_hub) role v given
