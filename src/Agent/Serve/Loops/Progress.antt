-- ===== src/Agent/Serve/Loops/Progress.antt =====
-- cmd/netso-agent/main.go: some loop of `serve` can go on until both have ended.
use netso.Common.{
  ◌<◌, ◌≡◌, ◌⊎◌, refl, sym, ap, ◌∙◌, Bool, true, not, ◌||◌, ◌&&◌, arith, inl, inr, Bool-cases,
  if_both, subst,
}
use netso.Agent.Serve.Loops.{
  Main, Pump, State, fail_read, write_text, fail_write, close_next, fail_output, send, fail_send,
  close_session, Loop, loop_step,
}
use netso.Agent.Serve.Loops.Streams.{IsValid}
use netso.Agent.Serve.Loops.Ends.{main_work, pump_work, work, after_write-work}

-- Some step of a loop leaves less to do.
abbrev pub GoesOn : State → Type 0
GoesOn s = (l : Loop) × (work (loop_step l s) < work s)

main_falls :
    (l : Loop) (f : Main → State → State) (s : State) (m : Main)
    → s.main ≡ m
    → loop_step l s ≡ f s.main s
    → work (f m s) < work s
    → GoesOn s
main_falls l f s m e same h = (l, subst (λ x. work x < work s) (sym (same ∙ ap (λ x. f x s) e)) h)

pump_falls :
    (l : Loop) (f : Pump → State → State) (s : State) (p : Pump)
    → s.pump ≡ p
    → loop_step l s ≡ f s.pump s
    → work (f p s) < work s
    → GoesOn s
pump_falls l f s p e same h = (l, subst (λ x. work x < work s) (sym (same ∙ ap (λ x. f x s) e)) h)

-- Neither write waits for room.
abbrev pub has_room : State → Bool
has_room s = not s.shell_full && not s.session_full

-- The goroutine goes on when the shell is gone.
pump-GoesOn :
    (p : Pump) (s : State)
    → s.pump ≡ p
    → (s.shell_closed || s.exited) ≡ true
    → has_room s ≡ true
    → (s.pump ≡ Pump.finished) ⊎ GoesOn s
unfolding loop_step
pump-GoesOn Pump.finished s e gone room = inl e
pump-GoesOn Pump.reading s e gone room = inr (
    pump_falls Loop.fails_output fail_output s Pump.reading e refl
      (rw gone (omega (arith, ap pump_work e))))
pump-GoesOn (Pump.writing b last) s e gone room = inr (elim (Bool-cases s.session_closed) [
  | inl shut ↦
      pump_falls Loop.fails_send fail_send s (Pump.writing b last) e refl
        (simp (shut, fail_send) (omega (arith, ap pump_work e)))
  | inr live ↦ pump_falls Loop.sends send s (Pump.writing b last) e refl (
      if_both (λ x. work x < work s) (s.session_closed || s.session_full) _ _
        (λ t. absurd (ground arith)) (λ f. omega (arith, ap pump_work e, after_write-work last)))
])
pump-GoesOn Pump.closing s e gone room = inr (
    pump_falls Loop.closes_session close_session s Pump.closing e refl
      (omega (arith, ap pump_work e)))

-- The shell or the session has gone.
abbrev pub is_gone : State → Bool
is_gone s = (s.shell_closed || s.exited) || (s.session_closed || s.broken)

pub goes_on :
    (m : Main) (s : State)
    → s.main ≡ m
    → IsValid s
    → is_gone s ≡ true
    → has_room s ≡ true
    → ((s.main ≡ Main.returned) × (s.pump ≡ Pump.finished)) ⊎ GoesOn s
unfolding loop_step
goes_on Main.reading s e v gone room = inr (elim (Bool-cases (s.session_closed || s.broken)) [
  | inl cut ↦
      main_falls Loop.fails_read fail_read s Main.reading e refl
        (rw cut (omega (arith, ap main_work e)))
  | inr whole ↦ elim (pump-GoesOn s.pump s refl (ground arith) room) [
    | inl done ↦ absurd (let shut = rw done at v.pump_shut in ground arith)
    | inr falls ↦ falls
  ]
])
goes_on (Main.writing d) s e v gone room = inr (elim (Bool-cases s.shell_closed) [
  | inl shut ↦ main_falls Loop.fails_write fail_write s (Main.writing d) e refl (
      if_both (λ x. work x < work s) (s.shell_closed || s.exited) _ _
        (λ t. omega (arith, ap main_work e)) (λ f. absurd (ground arith)))
  | inr live ↦ main_falls Loop.writes_text write_text s (Main.writing d) e refl (
      if_both (λ x. work x < work s) (s.shell_closed || s.shell_full) _ _
        (λ t. absurd (ground arith)) (λ f. omega (arith, ap main_work e)))
])
goes_on Main.closing_shell s e v gone room = inr (
    main_falls Loop.closes_next close_next s Main.closing_shell e refl
      (omega (arith, ap main_work e)))
goes_on Main.closing_session s e v gone room = inr (
    main_falls Loop.closes_next close_next s Main.closing_session e refl
      (omega (arith, ap main_work e)))
goes_on Main.returned s e v gone room =
    let shut = rw e at v.shut in
    elim (pump-GoesOn s.pump s refl (ground arith) room) [
      | inl done ↦ inl (e, done)
      | inr falls ↦ inr falls
    ]
