-- ===== src/Agent/Serve/Loops/Finish.antt =====
-- cmd/netso-agent/main.go: `serve` comes to its end.
use netso.Common.{
  ℕ, zero, suc, ◌<◌, ◌≤◌, ◌≡◌, ◌⊎◌, refl, true, List, [], ◌∷◌, length, arith, inl, inr,
}
use netso.Agent.Serve.Loops.{Main, Pump, State, start, Loop, loop_step, Action, run}
use netso.Agent.Serve.Loops.Streams.{IsValid}
use netso.Agent.Serve.Loops.Delivery.{reachable-IsValid, loop_step-IsValid}
use netso.Agent.Serve.Loops.Ends.{work, loop_step-IsFall}
use netso.Agent.Serve.Loops.Progress.{GoesOn, is_gone, has_room, goes_on}

loop_step-gone : (l : Loop) (s : State) → is_gone s ≡ true → is_gone (loop_step l s) ≡ true
unfolding loop_step
loop_step-gone Loop.reads_text s gone = ground arith
loop_step-gone Loop.fails_read s gone = ground arith
loop_step-gone Loop.writes_text s gone = ground arith
loop_step-gone Loop.fails_write s gone = ground arith
loop_step-gone Loop.closes_next s gone = ground arith
loop_step-gone (Loop.reads_output n last) s gone = ground arith
loop_step-gone Loop.fails_output s gone = ground arith
loop_step-gone Loop.sends s gone = ground arith
loop_step-gone Loop.fails_send s gone = ground arith
loop_step-gone Loop.closes_session s gone = ground arith

loop_step-room : (l : Loop) (s : State) → has_room s ≡ true → has_room (loop_step l s) ≡ true
unfolding loop_step
loop_step-room Loop.reads_text s room = ground arith
loop_step-room Loop.fails_read s room = ground arith
loop_step-room Loop.writes_text s room = ground arith
loop_step-room Loop.fails_write s room = ground arith
loop_step-room Loop.closes_next s room = ground arith
loop_step-room (Loop.reads_output n last) s room = ground arith
loop_step-room Loop.fails_output s room = ground arith
loop_step-room Loop.sends s room = ground arith
loop_step-room Loop.fails_send s room = ground arith
loop_step-room Loop.closes_session s room = ground arith

-- Steps of the loops, one after the other.
abbrev pub looping : List Loop → State → State
looping [] s = s
looping (l ∷ ls) s = looping ls (loop_step l s)

-- `serve` has returned and its goroutine has ended.
abbrev pub IsOver : State → Type 0
IsOver s = (s.main ≡ Main.returned) × (s.pump ≡ Pump.finished)

finish :
    (n : ℕ) (s : State)
    → IsValid s
    → is_gone s ≡ true
    → has_room s ≡ true
    → work s ≤ n
    → (ls : List Loop) × (length ls ≤ n) × IsOver (looping ls s)
finish zero s v gone room bound = elim (goes_on s.main s refl v gone room) [
  | inl over ↦ ([], omega arith, over)
  | inr (l, falls) ↦ absurd (omega arith)
]
finish (suc n) s v gone room bound = elim (goes_on s.main s refl v gone room) [
  | inl over ↦ ([], omega arith, over)
  | inr (l, falls) ↦
      let (ls, few, over) =
        finish n (loop_step l s) (loop_step-IsValid l s v) (loop_step-gone l s gone)
          (loop_step-room l s room) (omega arith) in
      (l ∷ ls, omega arith, over)
]

-- Whatever has come before, once the shell has exited or was closed, or the session was closed or broke,
-- and while neither a write to the terminal nor one to the connection has to wait for room: every step of
-- a loop changes nothing or leaves less to do with what has come in; either `serve` has returned and its
-- goroutine has ended, or some step of a loop leaves less to do; and some steps of the loops, no more
-- than there is left to do, bring both to their end.
pub serve-ends :
    (before : List Action) (l : Loop)
    → is_gone (run before start) ≡ true
    → has_room (run before start) ≡ true
    → let s = run before start in
      ((loop_step l s ≡ s) ⊎ (work (loop_step l s) < work s))
      × (IsOver s ⊎ GoesOn s)
      × ((ls : List Loop) × (length ls ≤ work s) × IsOver (looping ls s))
serve-ends before l gone room =
    let s = run before start in
    let v = reachable-IsValid before in
    (
      loop_step-IsFall l s,
      goes_on s.main s refl v gone room,
      finish (work s) s v gone room (omega arith),
    )
