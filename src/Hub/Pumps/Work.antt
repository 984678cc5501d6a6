-- ===== src/Hub/Pumps/Work.antt =====
-- cmd/netso-hub/main.go: once the relay has closed its connections it comes to its end.
use netso.Common.{
  ℕ, ◌+◌, ◌≤◌, ◌<◌, leb, true, List, [], ◌∷◌, length, ◌≡◌, ◌⊎◌, refl, ap, ◌∙◌, arith, Bool-cases,
  inl, inr,
}
use netso.Hub.Pumps.{
  End, Wire, Pump, Main, State, start, pump, Action, enabled, perform, run, is_reading,
}
use netso.Hub.Pumps.Order.{
  is_finished, client_closed, agent_closed, IsValid, start-IsValid, reading_of, holding_of,
  frame_of,
}
use netso.Hub.Pumps.Ends.{perform-IsValid, run-IsValid}

-- What is left to do once both connections are closed.
abbrev pump_work : Pump → Wire → ℕ
pump_work Pump.reading w = length w.inbox + length w.inbox + 1
pump_work (Pump.holding f) w = length w.inbox + length w.inbox + 2
pump_work Pump.finished w = 0

abbrev main_work : Main → ℕ
main_work Main.returned = 0
main_work _ = 1

abbrev pub work : State → ℕ
work s = pump_work s.from_client s.client + pump_work s.from_agent s.agent + main_work s.main

-- Each action can be taken when its turn comes.
abbrev pub AreTaken : List Action → State → Type 0
AreTaken [] s = Unit {0}
AreTaken (a ∷ rest) s = (enabled a s ≡ true) × AreTaken rest (perform a s)

record IsShut (s : State) : Type 0 where
  valid : IsValid s
  client : s.client.closed ≡ true
  agent : s.agent.closed ≡ true

shut-work : (a : Action) (s : State) → IsShut s → enabled a s ≡ true → work (perform a s) < work s
unfolding enabled perform
shut-work (Action.arrive End.client f) s shut h = absurd (ground (arith, shut.client))
shut-work (Action.arrive End.agent f) s shut h = absurd (ground (arith, shut.agent))
shut-work (Action.break End.client) s shut h = absurd (ground (arith, shut.client))
shut-work (Action.break End.agent) s shut h = absurd (ground (arith, shut.agent))
shut-work (Action.read End.client) s shut h =
    let p = reading_of s.from_client (ground arith) in
    let (f, rest, i) = frame_of s.client.inbox (ground arith) in rw (p, i) (omega arith)
shut-work (Action.read End.agent) s shut h =
    let p = reading_of s.from_agent (ground arith) in
    let (f, rest, i) = frame_of s.agent.inbox (ground arith) in rw (p, i) (omega arith)
shut-work (Action.fail_read End.client) s shut h =
    let p = reading_of s.from_client (ground arith) in rw p (omega arith)
shut-work (Action.fail_read End.agent) s shut h =
    let p = reading_of s.from_agent (ground arith) in rw p (omega arith)
shut-work (Action.write End.client) s shut h = absurd (ground (arith, shut.agent))
shut-work (Action.write End.agent) s shut h = absurd (ground (arith, shut.client))
shut-work (Action.fail_write End.client) s shut h =
    let (f, p) = holding_of s.from_client (ground arith) in rw p (omega arith)
shut-work (Action.fail_write End.agent) s shut h =
    let (f, p) = holding_of s.from_agent (ground arith) in rw p (omega arith)
shut-work Action.proceed s shut h = ground (arith, shut.agent, shut.valid.agent_shut)

-- A pump that has not finished can fail once its connections are closed.
pump-GoesOn :
    (s : State)
    → IsShut s
    → (e : End) → is_finished (pump e s) ≡ 0
    → (a : Action) × (enabled a s ≡ true)
unfolding enabled
pump-GoesOn s shut End.client h = elim (Bool-cases (is_reading s.from_client)) [
  | inl r ↦ (Action.fail_read End.client, rw (r, shut.client) refl)
  | inr r ↦ (Action.fail_write End.client, ground (arith, shut.agent))
]
pump-GoesOn s shut End.agent h = elim (Bool-cases (is_reading s.from_agent)) [
  | inl r ↦ (Action.fail_read End.agent, rw (r, shut.agent) refl)
  | inr r ↦ (Action.fail_write End.agent, ground (arith, shut.client))
]

one_unfinished :
    (p q : Pump) → is_finished p + is_finished q ≤ 1 → (is_finished p ≡ 0) ⊎ (is_finished q ≡ 0)
one_unfinished Pump.reading q h = inl refl
one_unfinished (Pump.holding f) q h = inl refl
one_unfinished Pump.finished Pump.reading h = inr refl
one_unfinished Pump.finished (Pump.holding f) h = inr refl
one_unfinished Pump.finished Pump.finished h = absurd (omega arith)

goes_on :
    (m : Main) (s : State)
    → s.main ≡ m
    → IsShut s
    → (s.main ≡ Main.returned) ⊎ ((a : Action) × (enabled a s ≡ true))
unfolding enabled
goes_on Main.returned s e shut = inl e
goes_on Main.first s e shut =
    absurd (let c = rw e at shut.valid.agent_shut in ground (arith, shut.agent))
goes_on Main.close_client s e shut =
    absurd (let c = rw e at shut.valid.agent_shut in ground (arith, shut.agent))
goes_on Main.close_agent s e shut =
    absurd (let c = rw e at shut.valid.agent_shut in ground (arith, shut.agent))
goes_on Main.second s e shut = elim (Bool-cases (leb 1 s.done)) [
  | inl signal ↦ inr (Action.proceed, rw e signal)
  | inr none_yet ↦
      let n = rw e at shut.valid.signals in
      elim (one_unfinished s.from_client s.from_agent (ground arith)) [
        | inl p ↦ inr (pump-GoesOn s shut End.client p)
        | inr p ↦ inr (pump-GoesOn s shut End.agent p)
      ]
]

keeps_closed :
    (a : Action) (s : State)
    → s.client.closed ≡ true
    → s.agent.closed ≡ true
    → ((perform a s).client.closed ≡ true) × ((perform a s).agent.closed ≡ true)
unfolding perform
keeps_closed (Action.arrive End.client f) s c d = ground arith
keeps_closed (Action.arrive End.agent f) s c d = ground arith
keeps_closed (Action.break End.client) s c d = ground arith
keeps_closed (Action.break End.agent) s c d = ground arith
keeps_closed (Action.read End.client) s c d = ground arith
keeps_closed (Action.read End.agent) s c d = ground arith
keeps_closed (Action.fail_read End.client) s c d = ground arith
keeps_closed (Action.fail_read End.agent) s c d = ground arith
keeps_closed (Action.write End.client) s c d = ground arith
keeps_closed (Action.write End.agent) s c d = ground arith
keeps_closed (Action.fail_write End.client) s c d = ground arith
keeps_closed (Action.fail_write End.agent) s c d = ground arith
keeps_closed Action.proceed s c d = ground arith

perform-IsShut : (a : Action) (s : State) → IsShut s → enabled a s ≡ true → IsShut (perform a s)
perform-IsShut a s shut h =
    let (c, d) = keeps_closed a s shut.client shut.agent in
    record { valid = perform-IsValid a s h shut.valid; client = c; agent = d }

-- The state after actions that can be taken.
abbrev pub taking : List Action → State → State
taking [] s = s
taking (a ∷ rest) s = taking rest (perform a s)

finishes :
    (actions : List Action) (s : State)
    → IsShut s
    → AreTaken actions s
    → (length actions ≤ work s)
      × (((taking actions s).main ≡ Main.returned)
          ⊎ ((a : Action) × (enabled a (taking actions s) ≡ true)))
finishes [] s shut t = (omega arith, goes_on s.main s refl shut)
finishes (a ∷ rest) s shut t =
    let (few, ends) = finishes rest (perform a s) (perform-IsShut a s shut t.0) t.1 in
    (omega (arith, shut-work a s shut t.0), ends)

-- Once the relay has closed both connections, it comes to its end however its goroutines run: from then
-- on no more actions can be taken than there is work left, twice the frames not read and a few, and as
-- long as the relay has not returned some action can be taken.
pub relay-ends :
    (before actions : List Action)
    → (run before start).main ≡ Main.second
    → AreTaken actions (run before start)
    → let s = run before start in
      (length actions ≤ work s)
      × (((taking actions s).main ≡ Main.returned)
          ⊎ ((a : Action) × (enabled a (taking actions s) ≡ true)))
relay-ends before actions e t =
    let v = run-IsValid before start start-IsValid in
    finishes actions (run before start)
      (record {
        valid = v;
        client = v.client_shut ∙ ap client_closed e;
        agent = v.agent_shut ∙ ap agent_closed e;
      })
      t
