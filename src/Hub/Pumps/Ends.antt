-- ===== src/Hub/Pumps/Ends.antt =====
-- cmd/netso-hub/main.go: what the relay delivers, when it returns.
use netso.Common.{
  ◌+◌, ◌≤◌, true, ◌||◌, List, [], ◌∷◌, ◌≡◌, refl, sym, ap, ◌∙◌, arith, Bool-cases, inl, inr,
}
use netso.Hub.Pumps.{
  End, other, Pump, Main, State, start, wire, pump, Action, enabled, perform, step, run, next,
  can_proceed, is_reading, is_holding,
}
use netso.Hub.Pumps.Order.{
  IsBalanced, is_finished, taken, client_closed, agent_closed, IsValid, start-IsValid,
  arrive-IsValid, break-IsValid, read-IsValid, write-IsValid, finish-IsValid, other-IsBalanced,
}

not_finished : (p : Pump) → (is_reading p || is_holding p) ≡ true → is_finished p ≡ 0
not_finished Pump.reading h = refl
not_finished (Pump.holding f) h = refl
not_finished Pump.finished h = absurd (ground arith)

next-IsValid :
    (m : Main) (s : State)
    → s.main ≡ m
    → can_proceed m s.done ≡ true
    → IsValid s
    → IsValid (next m s)
next-IsValid Main.first s e h v = record {
  to_agent = v.to_agent;
  to_client = v.to_client;
  signals = let n = rw e at v.signals in ground arith;
  client_shut = rw e at v.client_shut;
  agent_shut = rw e at v.agent_shut;
}
next-IsValid Main.close_client s e h v = record {
  to_agent =
      other-IsBalanced s.from_client s.client (record s.client { closed = true }) s.agent s.agent
        refl refl refl v.to_agent;
  to_client =
      other-IsBalanced s.from_agent s.agent s.agent s.client (record s.client { closed = true })
        refl refl refl v.to_client;
  signals = let n = rw e at v.signals in ground arith;
  client_shut = refl;
  agent_shut = rw e at v.agent_shut;
}
next-IsValid Main.close_agent s e h v = record {
  to_agent =
      other-IsBalanced s.from_client s.client s.client s.agent (record s.agent { closed = true })
        refl refl refl v.to_agent;
  to_client =
      other-IsBalanced s.from_agent s.agent (record s.agent { closed = true }) s.client s.client
        refl refl refl v.to_client;
  signals = let n = rw e at v.signals in ground arith;
  client_shut = rw e at v.client_shut;
  agent_shut = refl;
}
next-IsValid Main.second s e h v = record {
  to_agent = v.to_agent;
  to_client = v.to_client;
  signals = let n = rw e at v.signals in ground arith;
  client_shut = rw e at v.client_shut;
  agent_shut = rw e at v.agent_shut;
}
next-IsValid Main.returned s e h v = v

pub perform-IsValid :
    (a : Action) (s : State) → enabled a s ≡ true → IsValid s → IsValid (perform a s)
unfolding enabled perform
perform-IsValid (Action.arrive e f) s h v = arrive-IsValid s v e f
perform-IsValid (Action.break e) s h v = break-IsValid s v e
perform-IsValid (Action.read e) s h v = read-IsValid s v e h
perform-IsValid (Action.fail_read e) s h v =
    finish-IsValid s v e (not_finished (pump e s) (ground arith))
perform-IsValid (Action.write e) s h v = write-IsValid s v e h
perform-IsValid (Action.fail_write e) s h v =
    finish-IsValid s v e (not_finished (pump e s) (ground arith))
perform-IsValid Action.proceed s h v = next-IsValid s.main s refl h v

pub step-IsValid : (a : Action) (s : State) → IsValid s → IsValid (step a s)
unfolding step
step-IsValid a s v = elim (Bool-cases (enabled a s)) [
  | inl can ↦ rw can (perform-IsValid a s can v)
  | inr cannot ↦ rw cannot v
]

pub run-IsValid : (actions : List Action) (s : State) → IsValid s → IsValid (run actions s)
unfolding run
run-IsValid [] s v = v
run-IsValid (a ∷ rest) s v = run-IsValid rest (step a s) (step-IsValid a s v)

-- Whatever comes and in whatever order the goroutines run, all that has come from one end is written to
-- the other, in order and with its type, but for a frame that the pump holds and the frames that it has
-- not read yet; once the pump has finished, what was written is the beginning of what has come.
pub relay-delivers :
    (actions : List Action) (e : End)
    → let s = run actions start in IsBalanced (pump e s) (wire e s) (wire (other e) s)
relay-delivers actions End.client = (run-IsValid actions start start-IsValid).to_agent
relay-delivers actions End.agent = (run-IsValid actions start start-IsValid).to_client

both_finished :
    (p q : Pump) → 2 ≤ is_finished p + is_finished q → (p ≡ Pump.finished) × (q ≡ Pump.finished)
both_finished Pump.finished Pump.finished h = (refl, refl)
both_finished Pump.finished Pump.reading h = absurd (omega arith)
both_finished Pump.finished (Pump.holding f) h = absurd (omega arith)
both_finished Pump.reading Pump.finished h = absurd (omega arith)
both_finished Pump.reading Pump.reading h = absurd (omega arith)
both_finished Pump.reading (Pump.holding f) h = absurd (omega arith)
both_finished (Pump.holding f) Pump.finished h = absurd (omega arith)
both_finished (Pump.holding f) Pump.reading h = absurd (omega arith)
both_finished (Pump.holding f) (Pump.holding g) h = absurd (omega arith)

-- When the relay has returned, both of its goroutines have finished and both connections are closed.
pub relay-returned :
    (actions : List Action)
    → (run actions start).main ≡ Main.returned
    → let s = run actions start in
      (s.from_client ≡ Pump.finished)
      × (s.from_agent ≡ Pump.finished)
      × (s.client.closed ≡ true)
      × (s.agent.closed ≡ true)
relay-returned actions e =
    let s = run actions start in
    let v = run-IsValid actions start start-IsValid in
    let n : s.done + 2 ≡ is_finished s.from_client + is_finished s.from_agent =
      ap (λ m. s.done + taken m) (sym e) ∙ v.signals in
    let (p, q) = both_finished s.from_client s.from_agent (omega arith) in
    (p, q, v.client_shut ∙ ap client_closed e, v.agent_shut ∙ ap agent_closed e)
