-- ===== src/Agent/Serve/Loops/Ends.antt =====
-- cmd/netso-agent/main.go: `serve` does not hang once its shell or its session has gone.
use netso.Common.{
  ℕ, ◌+◌, ◌<◌, ◌≤◌, ◌≡◌, ◌⊎◌, refl, ap, Bool, true, false, not, ◌||◌, ◌&&◌, leb, List, [], ◌∷◌,
  length, length-drop, arith, inl, inr, if_both,
}
use netso.Common.Bytes.{Bytes}
use netso.Agent.Serve.Loops.{
  Main, Pump, State, read_text, fail_read, write_text, fail_write, close_next, read_output,
  fail_output, after_write, send, fail_send, close_session, buffer, Loop, loop_step,
}

abbrev pub main_work : Main → ℕ
main_work Main.reading = 3
main_work (Main.writing d) = 4
main_work Main.closing_shell = 2
main_work Main.closing_session = 1
main_work Main.returned = 0

abbrev pub pump_work : Pump → ℕ
pump_work Pump.reading = 2
pump_work (Pump.writing b last) = 3
pump_work Pump.closing = 1
pump_work Pump.finished = 0

-- The steps that the loops can still take with what has come in.
abbrev pub work : State → ℕ
work s =
    main_work s.main
    + (length s.inbox + length s.inbox)
    + (pump_work s.pump + (length s.output + length s.output))

-- A step of a loop does nothing, or leaves less to do.
abbrev pub IsFall : State → State → Type 0
IsFall s s' = (s' ≡ s) ⊎ (work s' < work s)

read_text-IsFall :
    (m : Main) (l : List Bytes) (s : State) → s.main ≡ m → s.inbox ≡ l → IsFall s (read_text m l s)
read_text-IsFall Main.reading ([] ∷ rest) s e i = inr (omega (arith, ap main_work e, ap length i))
read_text-IsFall Main.reading ((c ∷ d) ∷ rest) s e i =
    inr (omega (arith, ap main_work e, ap length i))
read_text-IsFall Main.reading [] s e i = inl refl
read_text-IsFall (Main.writing d) l s e i = inl refl
read_text-IsFall Main.closing_shell l s e i = inl refl
read_text-IsFall Main.closing_session l s e i = inl refl
read_text-IsFall Main.returned l s e i = inl refl

fail_read-IsFall : (m : Main) (s : State) → s.main ≡ m → IsFall s (fail_read m s)
fail_read-IsFall Main.reading s e =
    if_both (IsFall s) (s.session_closed || s.broken) _ _ (λ t. inr (omega (arith, ap main_work e)))
      (λ f. inl refl)
fail_read-IsFall (Main.writing d) s e = inl refl
fail_read-IsFall Main.closing_shell s e = inl refl
fail_read-IsFall Main.closing_session s e = inl refl
fail_read-IsFall Main.returned s e = inl refl

write_text-IsFall : (m : Main) (s : State) → s.main ≡ m → IsFall s (write_text m s)
write_text-IsFall (Main.writing d) s e =
    if_both (IsFall s) (s.shell_closed || s.shell_full) _ _ (λ t. inl refl)
      (λ f. inr (omega (arith, ap main_work e)))
write_text-IsFall Main.reading s e = inl refl
write_text-IsFall Main.closing_shell s e = inl refl
write_text-IsFall Main.closing_session s e = inl refl
write_text-IsFall Main.returned s e = inl refl

fail_write-IsFall : (m : Main) (s : State) → s.main ≡ m → IsFall s (fail_write m s)
fail_write-IsFall (Main.writing d) s e =
    if_both (IsFall s) (s.shell_closed || s.exited) _ _ (λ t. inr (omega (arith, ap main_work e)))
      (λ f. inl refl)
fail_write-IsFall Main.reading s e = inl refl
fail_write-IsFall Main.closing_shell s e = inl refl
fail_write-IsFall Main.closing_session s e = inl refl
fail_write-IsFall Main.returned s e = inl refl

close_next-IsFall : (m : Main) (s : State) → s.main ≡ m → IsFall s (close_next m s)
close_next-IsFall Main.closing_shell s e = inr (omega (arith, ap main_work e))
close_next-IsFall Main.closing_session s e = inr (omega (arith, ap main_work e))
close_next-IsFall Main.reading s e = inl refl
close_next-IsFall (Main.writing d) s e = inl refl
close_next-IsFall Main.returned s e = inl refl

read_output-IsFall :
    (p : Pump) (n : ℕ) (last : Bool) (s : State) → s.pump ≡ p → IsFall s (read_output p n last s)
read_output-IsFall Pump.reading n last s e =
    if_both (IsFall s)
      (leb 1 n
        && leb n buffer
        && leb n (length s.output)
        && not s.shell_closed
        && (not last || s.exited))
      _ _
      (λ t.
        let some_read : 1 ≤ n = ground arith in
        let there : n ≤ length s.output = ground arith in
        inr (omega (arith, ap pump_work e, length-drop n s.output)))
      (λ f. inl refl)
read_output-IsFall (Pump.writing b l) n last s e = inl refl
read_output-IsFall Pump.closing n last s e = inl refl
read_output-IsFall Pump.finished n last s e = inl refl

fail_output-IsFall : (p : Pump) (s : State) → s.pump ≡ p → IsFall s (fail_output p s)
fail_output-IsFall Pump.reading s e =
    if_both (IsFall s) (s.shell_closed || s.exited) _ _ (λ t. inr (omega (arith, ap pump_work e)))
      (λ f. inl refl)
fail_output-IsFall (Pump.writing b l) s e = inl refl
fail_output-IsFall Pump.closing s e = inl refl
fail_output-IsFall Pump.finished s e = inl refl

pub after_write-work : (last : Bool) → pump_work (after_write last) ≤ 2
after_write-work true = omega arith
after_write-work false = omega arith

send-IsFall : (p : Pump) (s : State) → s.pump ≡ p → IsFall s (send p s)
send-IsFall (Pump.writing b last) s e =
    if_both (IsFall s) (s.session_closed || s.session_full) _ _ (λ t. inl refl)
      (λ f. inr (omega (arith, ap pump_work e, after_write-work last)))
send-IsFall Pump.reading s e = inl refl
send-IsFall Pump.closing s e = inl refl
send-IsFall Pump.finished s e = inl refl

fail_send-IsFall : (p : Pump) (s : State) → s.pump ≡ p → IsFall s (fail_send p s)
fail_send-IsFall (Pump.writing b l) s e =
    if_both (IsFall s) (s.session_closed || s.broken) _ _ (λ t. inr (omega (arith, ap pump_work e)))
      (λ f. inl refl)
fail_send-IsFall Pump.reading s e = inl refl
fail_send-IsFall Pump.closing s e = inl refl
fail_send-IsFall Pump.finished s e = inl refl

close_session-IsFall : (p : Pump) (s : State) → s.pump ≡ p → IsFall s (close_session p s)
close_session-IsFall Pump.closing s e = inr (omega (arith, ap pump_work e))
close_session-IsFall Pump.reading s e = inl refl
close_session-IsFall (Pump.writing b l) s e = inl refl
close_session-IsFall Pump.finished s e = inl refl

pub loop_step-IsFall : (l : Loop) (s : State) → IsFall s (loop_step l s)
unfolding loop_step
loop_step-IsFall Loop.reads_text s = read_text-IsFall s.main s.inbox s refl refl
loop_step-IsFall Loop.fails_read s = fail_read-IsFall s.main s refl
loop_step-IsFall Loop.writes_text s = write_text-IsFall s.main s refl
loop_step-IsFall Loop.fails_write s = fail_write-IsFall s.main s refl
loop_step-IsFall Loop.closes_next s = close_next-IsFall s.main s refl
loop_step-IsFall (Loop.reads_output n last) s = read_output-IsFall s.pump n last s refl
loop_step-IsFall Loop.fails_output s = fail_output-IsFall s.pump s refl
loop_step-IsFall Loop.sends s = send-IsFall s.pump s refl
loop_step-IsFall Loop.fails_send s = fail_send-IsFall s.pump s refl
loop_step-IsFall Loop.closes_session s = close_session-IsFall s.pump s refl
