-- ===== src/Agent/Serve/Loops/Delivery.antt =====
-- cmd/netso-agent/main.go: the shell gets what the client sends, and the client what the shell prints.
use netso.Common.{
  ℕ, zero, suc, ◌≡◌, refl, sym, ap, Bool, true, false, not, ◌||◌, ◌&&◌, leb, List, [], ◌∷◌, ◌++◌,
  length, take, drop, inr, if_both, subst,
}
use netso.Common.Bytes.{Bytes}
use netso.Secure.Drain.{joined}
use netso.Agent.Serve.Loops.{
  Pump, State, start, read_output, fail_output, after_write, send, fail_send, close_session, buffer,
  Loop, loop_step, Action, step, run,
}
use netso.Agent.Serve.Loops.Streams.{
  IsCarried, IsValid, outward_at, IsCarried-more, IsCarried-write, IsCarried-stop, IsCarried-read,
  main_closed, joined-append, read_text-IsValid, fail_read-IsValid, fail_write-IsValid,
  write_text-IsValid, close_next-IsValid, held, stopped, pump_held, pump_stopped, closed_by,
}

take-drop {ℓ} : {A : Type ℓ} (n : ℕ) (l : List A) → l ≡ take n l ++ drop n l
take-drop zero l = refl
take-drop (suc n) [] = refl
take-drop (suc n) (x ∷ l) = ap (λ t. x ∷ t) (take-drop n l)

-- The goroutine stops.
pump_stop-IsValid : (s : State) → IsValid s → IsValid (record s { pump = Pump.closing })
pump_stop-IsValid s v = record {
  inward = v.inward;
  outward =
      IsCarried-stop s.printed s.sent (pump_held s.pump) s.output [] s.output (pump_stopped s.pump)
        v.outward;
  shut = v.shut;
  pump_shut = refl;
}

read_output-IsValid :
    (p : Pump) (n : ℕ) (last : Bool) (s : State)
    → s.pump ≡ p
    → IsValid s
    → IsValid (read_output p n last s)
read_output-IsValid Pump.reading n last s e v =
    if_both IsValid
      (leb 1 n
        && leb n buffer
        && leb n (length s.output)
        && not s.shell_closed
        && (not last || s.exited))
      _ _
      (λ t. record {
        inward = v.inward;
        outward =
            IsCarried-read s.printed s.sent s.output (take n s.output) (drop n s.output)
              (take-drop n s.output) (outward_at Pump.reading s e v);
        shut = v.shut;
        pump_shut = refl;
      })
      (λ f. v)
read_output-IsValid (Pump.writing b l) n last s e v = v
read_output-IsValid Pump.closing n last s e v = v
read_output-IsValid Pump.finished n last s e v = v

fail_output-IsValid : (p : Pump) (s : State) → IsValid s → IsValid (fail_output p s)
fail_output-IsValid Pump.reading s v =
    if_both IsValid (s.shell_closed || s.exited) _ _ (λ t. pump_stop-IsValid s v) (λ f. v)
fail_output-IsValid (Pump.writing b l) s v = v
fail_output-IsValid Pump.closing s v = v
fail_output-IsValid Pump.finished s v = v

fail_send-IsValid : (p : Pump) (s : State) → IsValid s → IsValid (fail_send p s)
fail_send-IsValid (Pump.writing b l) s v =
    if_both IsValid (s.session_closed || s.broken) _ _ (λ t. pump_stop-IsValid s v) (λ f. v)
fail_send-IsValid Pump.reading s v = v
fail_send-IsValid Pump.closing s v = v
fail_send-IsValid Pump.finished s v = v

sent-IsValid :
    (b : Bytes) (last : Bool) (s : State)
    → s.pump ≡ Pump.writing b last
    → IsValid s
    → IsValid (record s { sent = s.sent ++ b; pump = after_write last })
sent-IsValid b true s e v = record {
  inward = v.inward;
  outward =
      IsCarried-stop s.printed (s.sent ++ b) [] s.output [] s.output true
        (IsCarried-write s.printed s.sent b s.output true (outward_at (Pump.writing b true) s e v));
  shut = v.shut;
  pump_shut = refl;
}
sent-IsValid b false s e v = record {
  inward = v.inward;
  outward =
      IsCarried-write s.printed s.sent b s.output false (outward_at (Pump.writing b false) s e v);
  shut = v.shut;
  pump_shut = refl;
}

send-IsValid : (p : Pump) (s : State) → s.pump ≡ p → IsValid s → IsValid (send p s)
send-IsValid (Pump.writing b last) s e v =
    if_both IsValid (s.session_closed || s.session_full) _ _ (λ t. v)
      (λ f. sent-IsValid b last s e v)
send-IsValid Pump.reading s e v = v
send-IsValid Pump.closing s e v = v
send-IsValid Pump.finished s e v = v

close_session-IsValid : (p : Pump) (s : State) → IsValid s → IsValid (close_session p s)
close_session-IsValid Pump.closing s v = record {
  inward = v.inward;
  outward =
      IsCarried-stop s.printed s.sent (pump_held s.pump) s.output [] s.output (pump_stopped s.pump)
        v.outward;
  shut = main_closed s.main s.shell_closed s.session_closed v.shut;
  pump_shut = refl;
}
close_session-IsValid Pump.reading s v = v
close_session-IsValid (Pump.writing b l) s v = v
close_session-IsValid Pump.finished s v = v

pub loop_step-IsValid : (l : Loop) (s : State) → IsValid s → IsValid (loop_step l s)
unfolding loop_step
loop_step-IsValid Loop.reads_text s v = read_text-IsValid s.main s.inbox s refl refl v
loop_step-IsValid Loop.fails_read s v = fail_read-IsValid s.main s v
loop_step-IsValid Loop.writes_text s v = write_text-IsValid s.main s refl v
loop_step-IsValid Loop.fails_write s v = fail_write-IsValid s.main s v
loop_step-IsValid Loop.closes_next s v = close_next-IsValid s.main s refl v
loop_step-IsValid (Loop.reads_output n last) s v = read_output-IsValid s.pump n last s refl v
loop_step-IsValid Loop.fails_output s v = fail_output-IsValid s.pump s v
loop_step-IsValid Loop.sends s v = send-IsValid s.pump s refl v
loop_step-IsValid Loop.fails_send s v = fail_send-IsValid s.pump s v
loop_step-IsValid Loop.closes_session s v = close_session-IsValid s.pump s v

step-IsValid : (a : Action) (s : State) → IsValid s → IsValid (step a s)
unfolding step
step-IsValid (Action.arrives d) s v =
    if_both IsValid s.session_closed _ _ (λ t. v)
      (λ f. record {
        inward =
            subst (λ x. IsCarried (s.arrived ++ d) s.typed (stopped s.main) (held s.main) x)
              (sym (joined-append s.inbox d))
              (IsCarried-more s.arrived s.typed (held s.main) (joined s.inbox) d (stopped s.main)
                v.inward);
        outward = v.outward;
        shut = v.shut;
        pump_shut = v.pump_shut;
      })
step-IsValid Action.breaks s v = record {
  inward = v.inward;
  outward = v.outward;
  shut = v.shut;
  pump_shut = v.pump_shut;
}
step-IsValid (Action.prints b) s v =
    if_both IsValid s.exited _ _ (λ t. v)
      (λ f. record {
        inward = v.inward;
        outward =
            IsCarried-more s.printed s.sent (pump_held s.pump) s.output b (pump_stopped s.pump)
              v.outward;
        shut = v.shut;
        pump_shut = v.pump_shut;
      })
step-IsValid Action.exits s v = record {
  inward = v.inward;
  outward = v.outward;
  shut = v.shut;
  pump_shut = v.pump_shut;
}
step-IsValid (Action.fills_shell full) s v = record {
  inward = v.inward;
  outward = v.outward;
  shut = v.shut;
  pump_shut = v.pump_shut;
}
step-IsValid (Action.fills_session full) s v = record {
  inward = v.inward;
  outward = v.outward;
  shut = v.shut;
  pump_shut = v.pump_shut;
}
step-IsValid (Action.loops l) s v = loop_step-IsValid l s v

run-IsValid : (l : List Action) (s : State) → IsValid s → IsValid (run l s)
unfolding run
run-IsValid [] s v = v
run-IsValid (a ∷ rest) s v = run-IsValid rest (step a s) (step-IsValid a s v)

pub reachable-IsValid : (l : List Action) → IsValid (run l start)
reachable-IsValid l = run-IsValid l start (record {
  inward = ([], refl, inr refl);
  outward = ([], refl, inr refl);
  shut = refl;
  pump_shut = refl;
})

-- Whatever the client and the shell do and in whatever order the two loops run, what was written to the
-- shell is the beginning of what the client has sent, byte for byte, and while the main loop goes on the
-- rest is the text that it holds and the texts that it has not read yet; and so for what was sent to the
-- client, of what the shell has printed. When `serve` has returned, the shell and the session are
-- closed.
pub serve-carries :
    (l : List Action)
    → let s = run l start in
      IsCarried s.arrived s.typed (stopped s.main) (held s.main) (joined s.inbox)
      × IsCarried s.printed s.sent (pump_stopped s.pump) (pump_held s.pump) s.output
      × (closed_by s.main s.shell_closed s.session_closed ≡ true)
serve-carries l = let v = reachable-IsValid l in (v.inward, v.outward, v.shut)
