-- ===== src/Hub/Pumps/Examples.antt =====
-- A relay of two messages whose client then goes away.
use netso.Common.{◌≤◌, true, List, [], ◌∷◌, ◌++◌, length, ◌≡◌, ◌⊎◌, refl}
use netso.Common.Bytes.{codes}
use netso.Hub.Pumps.{
  Frame, End, other, Main, start, wire, pump, Action, enabled, perform, step, run,
}
use netso.Hub.Pumps.Order.{IsBalanced}
use netso.Hub.Pumps.Ends.{relay-delivers}
use netso.Hub.Pumps.Work.{work, AreTaken, taking, relay-ends}

abbrev hello : Frame
hello = record { kind = 2; payload = codes "hello" }

abbrev until_closed : List Action
until_closed =
    Action.arrive End.client hello
    ∷ Action.read End.client
    ∷ Action.arrive End.client hello
    ∷ Action.write End.client
    ∷ Action.break End.client
    ∷ Action.fail_read End.client
    ∷ Action.proceed
    ∷ Action.proceed
    ∷ Action.proceed
    ∷ []

abbrev to_end : List Action
to_end = Action.fail_read End.agent ∷ Action.proceed ∷ []

relay-delivers_example :
    let s = run until_closed start in
    IsBalanced (pump End.client s) (wire End.client s) (wire (other End.client) s)
relay-delivers_example = relay-delivers until_closed End.client

at_second : (run until_closed start).main ≡ Main.second
unfolding run step enabled perform
at_second = refl

to_end-AreTaken : AreTaken to_end (run until_closed start)
unfolding run step enabled perform
to_end-AreTaken = (refl, (refl, tt))

relay-ends_example :
    let s = run until_closed start in
    (length to_end ≤ work s)
    × (((taking to_end s).main ≡ Main.returned)
        ⊎ ((a : Action) × (enabled a (taking to_end s) ≡ true)))
relay-ends_example = relay-ends until_closed to_end at_second to_end-AreTaken

at_end : (run (until_closed ++ to_end) start).main ≡ Main.returned
unfolding run step enabled perform
at_end = refl

test_delivered : (run until_closed start).agent.written ≡ hello ∷ []
unfolding run step enabled perform
test_delivered = refl
