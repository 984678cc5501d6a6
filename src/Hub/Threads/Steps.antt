-- ===== src/Hub/Threads/Steps.antt =====
-- cmd/netso-hub/main.go: every step of the hub keeps the invariant.
use netso.Common.{
  ℕ, ◌≡◌, ◌≢◌, refl, Bool, not, ◌||◌, none, some, List, [], ◌∷◌, length, get_elem?, All, arith, inl,
  inr, Option-cases, if_both,
}
use netso.Common.Bytes.{Bytes, str_eq}
use netso.Common.Int.{pos}
use netso.Registry
use netso.Registry.Lookup.{find}
use netso.Audit.{Handle}
use netso.Audit.Count.{new_log-IsValid}
use netso.Hub.Threads.{
  Pc, State, Action, start, agent_arrives, client_arrives, move, advance, step, run,
}
use netso.Hub.Threads.Roles.{Role, Roles, assign, assign_self, Leaves, Leaves-assign, IsValid}
use netso.Hub.Threads.Tracking.{IsNamed-more, born-IsTracked}
use netso.Hub.Threads.Held.{IsKept, spawned-IsValid}
use netso.Hub.Threads.Registering.{registering-IsKept, replacing_none, replacing_some}
use netso.Hub.Threads.Connecting.{
  rejecting-IsKept, looking-IsKept, starting-IsKept, relaying-IsKept, parting-IsKept,
  draining-IsKept, ending-IsKept,
}

module _ (s : State) (role : Roles) (server : Handle → ℕ) (v : IsValid s role server) where
  move-IsKept :
      (i now : ℕ) (pc : Pc) → get_elem? s.threads i ≡ some pc → now ≢ 0 → IsKept (move i now pc s)
  move-IsKept i now (Pc.registering network name pubkey c) at nonzero =
      registering-IsKept i now s role server v network name pubkey c at
  move-IsKept i now (Pc.replacing network name none) at nonzero =
      replacing_none i now s role server v network name at
  move-IsKept i now (Pc.replacing network name (some p)) at nonzero =
      replacing_some i now s role server v network name p at
  move-IsKept i now (Pc.looking network name c) at nonzero =
      looking-IsKept i now s role server v network name c at
  move-IsKept i now (Pc.rejecting c) at nonzero = rejecting-IsKept i now s role server v c at
  move-IsKept i now (Pc.starting network name c a) at nonzero =
      starting-IsKept i now s role server v network name c a at
  move-IsKept i now (Pc.relaying network name c a h) at nonzero =
      relaying-IsKept i now s role server v network name c a h at
  move-IsKept i now (Pc.parting c a h) at nonzero = parting-IsKept i now s role server v c a h at
  move-IsKept i now (Pc.draining h) at nonzero = draining-IsKept i now s role server v h at
  move-IsKept i now (Pc.ending h) at nonzero = ending-IsKept i now s role server v h at nonzero
  move-IsKept i now Pc.panicked at nonzero = (role, server, v)
  move-IsKept i now Pc.finished at nonzero = (role, server, v)

  advance-IsKept : (i now : ℕ) → now ≢ 0 → IsKept (advance i now s)
  unfolding advance
  advance-IsKept i now nonzero = elim (Option-cases (get_elem? s.threads i)) [
    | inl nobody ↦ rw (nobody, advance) (role, server, v)
    | inr (pc, at) ↦ rw (at, advance) (move-IsKept i now pc at nonzero)
  ]

  unborn-Leaves :
      (j : ℕ) (r : Role)
      → Leaves j role (assign s.next r role) server server s.audit.sessions s.audit.sessions
  unborn-Leaves j r =
      let unborn = v.tracked.fresh s.next (omega arith) in
      Leaves-assign j role server s.audit.sessions s.next r (λ e. cc) (λ _ _ e. cc) (λ e. cc)

  agent_arrives-IsKept :
      (network name pubkey : Bytes) (upgrade : Bool)
      → IsKept (agent_arrives network name pubkey upgrade s)
  unfolding agent_arrives
  agent_arrives-IsKept network name pubkey upgrade =
      let r = Role.agent (length s.threads) network name in
      if_both IsKept ((str_eq network [] || str_eq name []) || not upgrade) _ _
        (λ refused. (role, server, v))
        (λ given. (
          assign s.next r role,
          server,
          spawned-IsValid v _ (Pc.registering network name pubkey s.next) refl refl
              (born-IsTracked v.tracked r _ (inl (refl, refl, refl))
                (λ c q. IsNamed-more (s.next, network, name) s.dialled c q))
              (λ j. unborn-Leaves j r) (assign_self s.next r role) refl,
        ))

  client_arrives-IsKept :
      (network peer : Bytes) (upgrade : Bool) → IsKept (client_arrives network peer upgrade s)
  unfolding client_arrives
  client_arrives-IsKept network peer upgrade =
      let r = Role.client (length s.threads) in
      if_both IsKept ((str_eq network [] || str_eq peer []) || not upgrade) _ _
        (λ refused. (role, server, v))
        (λ given. (
          assign s.next r role,
          server,
          spawned-IsValid v _ (Pc.looking network peer s.next) refl refl
              (born-IsTracked v.tracked r s.dialled tt (λ c q h. h)) (λ j. unborn-Leaves j r)
              (assign_self s.next r role) refl,
        ))

-- The clock does not read the zero time.
abbrev pub IsTimed : Action → Type 0
IsTimed (Action.agent network name pubkey upgrade) = Unit
IsTimed (Action.client network peer upgrade) = Unit
IsTimed (Action.goes i now) = now ≢ 0

pub step-IsKept : (a : Action) (s : State) → IsTimed a → IsKept s → IsKept (step a s)
unfolding step
step-IsKept (Action.agent network name pubkey upgrade) s t (role, server, v) =
    agent_arrives-IsKept s role server v network name pubkey upgrade
step-IsKept (Action.client network peer upgrade) s t (role, server, v) =
    client_arrives-IsKept s role server v network peer upgrade
step-IsKept (Action.goes i now) s t (role, server, v) = advance-IsKept s role server v i now t

pub run-IsKept :
    (acts : List Action) (s : State) → All IsTimed acts → IsKept s → IsKept (run acts s)
unfolding run
run-IsKept [] s t k = k
run-IsKept (a ∷ acts) s t k = run-IsKept acts (step a s) t.1 (step-IsKept a s t.0 k)

pub start-IsKept : IsKept start
unfolding start find
start-IsKept = (
  (λ c. Role.unborn),
  (λ h. 0),
  record {
    tracked = record {
      reg = Registry.Lookup.new-IsValid;
      registered = λ network name rec at.
          absurd (ground (arith, Registry.Spec.new-Implements.view network name));
      dropped = tt;
      fresh = λ c le. refl;
      named = λ c. tt;
    };
    audit = new_log-IsValid (pos 100);
    held = λ i pc at. absurd (ground arith);
    counted = refl;
  },
)
