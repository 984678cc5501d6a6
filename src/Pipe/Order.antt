-- ===== src/Pipe/Order.antt =====
-- internal/transport/transport.go: what one end writes the other reads, in order.
use netso.Common.{
  ◌≤◌, ◌≡◌, sym, ap, ◌∙◌, Bool, true, false, List, [], ◌∷◌, ◌++◌, length, if◌then◌else◌, arith,
  append-[], append_assoc, length-append,
}
use netso.Common.Bytes.{Bytes}
use netso.Pipe
use netso.Pipe.{End, State, Outcome, pipe, out, other, set_out, write_msg, read_msg, receive}

-- A call on one of the ends.
pub data Call : Type 0 where
  write : End → Bool → Bytes → Call
  read : End → Bool → Call
  close : Call

unfoldable pub step : Call → State → State × Outcome
step (Call.write e pick m) p = write_msg e pick m p
step (Call.read e pick) p = read_msg e pick p
step Call.close p = (Pipe.close p, Outcome.wrote)

unfoldable pub run : List Call → State → State
run [] p = p
run (c ∷ cs) p = run cs (step c p).0

abbrev same_end : End → End → Bool
same_end End.a End.a = true
same_end End.b End.b = true
same_end _ _ = false

-- What a call has written to the channel out of an end, and what it has read from it.
abbrev put_by : End → Call → Outcome → List Bytes
put_by e (Call.write e' pick m) Outcome.wrote = if same_end e e' then m ∷ [] else []
put_by e _ _ = []

abbrev got_from : End → Call → Outcome → List Bytes
got_from e (Call.read e' pick) (Outcome.got m) = if same_end e (other e') then m ∷ [] else []
got_from e _ _ = []

-- All that an end has written, and all that the other end has read.
unfoldable pub written : End → List Call → State → List Bytes
written e [] p = []
written e (c ∷ cs) p = put_by e c (step c p).1 ++ written e cs (step c p).0

unfoldable pub arrived : End → List Call → State → List Bytes
arrived e [] p = []
arrived e (c ∷ cs) p = got_from e c (step c p).1 ++ arrived e cs (step c p).0

-- What was in the channel and what a call put there is what it got and what is in the channel now.
step_balance :
    (e : End) (c : Call) (p : State)
    → out e p ++ put_by e c (step c p).1 ≡ got_from e c (step c p).1 ++ out e (step c p).0
unfolding step write_msg read_msg Pipe.close
step_balance End.a (Call.write End.a pick m) p = ground (arith, append-[] p.a2b)
step_balance End.a (Call.write End.b pick m) p = ground (arith, append-[] p.a2b)
step_balance End.b (Call.write End.a pick m) p = ground (arith, append-[] p.b2a)
step_balance End.b (Call.write End.b pick m) p = ground (arith, append-[] p.b2a)
step_balance End.a (Call.read End.a pick) p = ground (arith, append-[] p.a2b)
step_balance End.a (Call.read End.b pick) p = ground (arith, append-[] p.a2b)
step_balance End.b (Call.read End.a pick) p = ground (arith, append-[] p.b2a)
step_balance End.b (Call.read End.b pick) p = ground (arith, append-[] p.b2a)
step_balance End.a Call.close p = append-[] p.a2b
step_balance End.b Call.close p = append-[] p.b2a

pub balance :
    (e : End) (cs : List Call) (p : State)
    → out e p ++ written e cs p ≡ arrived e cs p ++ out e (run cs p)
unfolding written arrived run
balance e [] p = append-[] (out e p)
balance e (c ∷ cs) p =
    let (p', o) = step c p in
    sym (append_assoc (out e p) (put_by e c (step c p).1) (written e cs (step c p).0))
    ∙ ap (λ l. l ++ written e cs (step c p).0) (step_balance e c p)
    ∙ append_assoc (got_from e c (step c p).1) (out e (step c p).0) (written e cs (step c p).0)
    ∙ ap (λ l. got_from e c (step c p).1 ++ l) (balance e cs (step c p).0)
    ∙ sym (
        append_assoc (got_from e c (step c p).1) (arrived e cs (step c p).0)
          (out e (run cs (step c p).0)))

-- No channel holds more than its sixteen messages.
abbrev pub IsBounded : State → Type 0
IsBounded p = (length p.a2b ≤ 16) × (length p.b2a ≤ 16)

step-IsBounded : (c : Call) (p : State) → IsBounded p → IsBounded (step c p).0
unfolding step write_msg read_msg Pipe.close
step-IsBounded (Call.write End.a pick m) p v = ground (arith, length-append p.a2b (m ∷ []))
step-IsBounded (Call.write End.b pick m) p v = ground (arith, length-append p.b2a (m ∷ []))
step-IsBounded (Call.read End.a pick) p v = ground arith
step-IsBounded (Call.read End.b pick) p v = ground arith
step-IsBounded Call.close p v = v

run-IsBounded : (cs : List Call) (p : State) → IsBounded p → IsBounded (run cs p)
unfolding run
run-IsBounded [] p v = v
run-IsBounded (c ∷ cs) p v = run-IsBounded cs (step c p).0 (step-IsBounded c p v)

-- After any calls on a new pipe, by either end and in any order, closes included, what has arrived
-- from an end is the beginning of what that end has written, in order, each message once, and the
-- rest is in the channel, which never holds more than sixteen messages.
pub written-arrived :
    (e : End) (cs : List Call)
    → (written e cs pipe ≡ arrived e cs pipe ++ out e (run cs pipe))
      × (length (out e (run cs pipe)) ≤ 16)
unfolding pipe
written-arrived End.a cs =
    (balance End.a cs pipe, (run-IsBounded cs pipe (omega arith, omega arith)).0)
written-arrived End.b cs =
    (balance End.b cs pipe, (run-IsBounded cs pipe (omega arith, omega arith)).1)
