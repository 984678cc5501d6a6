-- ===== src/Agent/Serve/Loops/Examples.antt =====
-- A client that sends a command and a shell that answers and exits.
use netso.Common.{length, ◌≤◌, ◌<◌, ◌≡◌, ◌⊎◌, refl, true, false, List, [], ◌∷◌}
use netso.Common.Bytes.{codes}
use netso.Secure.Drain.{joined}
use netso.Agent.Serve.Loops.{Main, Pump, State, start, Loop, loop_step, Action, step, run}
use netso.Agent.Serve.Loops.Streams.{IsCarried, held, stopped, pump_held, pump_stopped, closed_by}
use netso.Agent.Serve.Loops.Delivery.{serve-carries}
use netso.Agent.Serve.Loops.Ends.{work}
use netso.Agent.Serve.Loops.Progress.{GoesOn}
use netso.Agent.Serve.Loops.Finish.{looping, IsOver, serve-ends}

abbrev session : List Action
session =
    Action.arrives (codes "ls\n")
    ∷ Action.loops Loop.reads_text
    ∷ Action.loops Loop.writes_text
    ∷ Action.prints (codes "a.txt\n")
    ∷ Action.loops (Loop.reads_output 4 false)
    ∷ Action.loops Loop.sends
    ∷ Action.exits
    ∷ []

abbrev after : State
after = run session start

test_after :
    (after.typed ≡ codes "ls\n") × (after.sent ≡ codes "a.tx") × (after.output ≡ codes "t\n")
unfolding run step loop_step
test_after = (refl, refl, refl)

-- The goroutine ends the session, and the main loop then returns.
test_returned :
    let s =
      run
        (Action.loops Loop.fails_output
          ∷ Action.loops Loop.closes_session
          ∷ Action.loops Loop.fails_read
          ∷ Action.loops Loop.closes_next
          ∷ Action.loops Loop.closes_next
          ∷ [])
        after in
    (s.main ≡ Main.returned) × (s.pump ≡ Pump.finished)
unfolding run step loop_step
test_returned = (refl, refl)

serve-carries_example :
    IsCarried after.arrived after.typed (stopped after.main) (held after.main) (joined after.inbox)
    × IsCarried after.printed after.sent
        (pump_stopped after.pump)
        (pump_held after.pump)
        after.output
    × (closed_by after.main after.shell_closed after.session_closed ≡ true)
serve-carries_example = serve-carries session

serve-ends_example :
    ((loop_step Loop.fails_output after ≡ after)
      ⊎ (work (loop_step Loop.fails_output after) < work after))
    × (IsOver after ⊎ GoesOn after)
    × ((ls : List Loop) × (length ls ≤ work after) × IsOver (looping ls after))
unfolding run step loop_step
serve-ends_example = serve-ends session Loop.fails_output refl refl

-- A shell that does not read keeps the main loop waiting, although the session is broken.
test_waits :
    let s =
      run
        (Action.arrives (codes "ls\n")
          ∷ Action.fills_shell true
          ∷ Action.loops Loop.reads_text
          ∷ Action.breaks
          ∷ Action.loops Loop.writes_text
          ∷ Action.loops Loop.fails_write
          ∷ Action.loops Loop.fails_read
          ∷ [])
        start in
    s.main ≡ Main.writing (codes "ls\n")
unfolding run step loop_step
test_waits = refl
