-- ===== src/Agent/Serve/Loops.antt =====
-- cmd/netso-agent/main.go: the two loops of `serve`, over an established session and a started shell, as
-- steps that come in any order. The session gives the client's texts until it is closed or breaks, which
-- stands for a failing connection and for a message that does not decrypt. The shell prints until it
-- exits. A write to a terminal that is full, or to a session that takes no more, waits. An action that
-- cannot be taken changes nothing.
pub mod Streams
pub mod Delivery
pub mod Ends
pub mod Progress
pub mod Finish
mod Examples
use netso.Common.{
  ℕ, ◌+◌, leb, Bool, true, false, not, ◌||◌, ◌&&◌, List, [], ◌∷◌, ◌++◌, length, take, drop,
  if◌then◌else◌,
}
use netso.Common.Bytes.{Bytes}

-- Where the main loop stands, and what follows it: `sh.Close()`, `sess.Close()` and the return.
pub data Main : Type 0 where
  reading : Main
  writing : Bytes → Main
  closing_shell : Main
  closing_session : Main
  returned : Main

-- Where the goroutine stands. What it holds comes with the shell's error, or without.
pub data Pump : Type 0 where
  reading : Pump
  writing : Bytes → Bool → Pump
  closing : Pump
  finished : Pump

-- `arrived` is all that the client has sent, and `inbox` the texts of it that are not yet read; `sent`
-- is what was sent to the client. `printed` is all that the shell has printed, and `output` what of
-- it is not yet read; `typed` is what was written to the shell. `shell_full` tells that the terminal
-- takes no input for now, and `session_full` that the connection takes no text.
pub record State : Type 0 where
  pub arrived : Bytes
  pub inbox : List Bytes
  pub sent : Bytes
  pub broken : Bool
  pub session_closed : Bool
  pub printed : Bytes
  pub output : Bytes
  pub typed : Bytes
  pub exited : Bool
  pub shell_closed : Bool
  pub shell_full : Bool
  pub session_full : Bool
  pub main : Main
  pub pump : Pump

abbrev pub start : State
start = record {
  arrived = [];
  inbox = [];
  sent = [];
  broken = false;
  session_closed = false;
  printed = [];
  output = [];
  typed = [];
  exited = false;
  shell_closed = false;
  shell_full = false;
  session_full = false;
  main = Main.reading;
  pump = Pump.reading;
}

-- The size of the goroutine's buffer.
abbrev pub buffer : ℕ
buffer = 32768

-- Empty data is not written.
abbrev pub after_read : Bytes → Main
after_read [] = Main.reading
after_read (c ∷ d) = Main.writing (c ∷ d)

abbrev pub read_text : Main → List Bytes → State → State
read_text Main.reading (d ∷ rest) s = record s { inbox = rest; main = after_read d }
read_text _ _ s = s

abbrev pub fail_read : Main → State → State
fail_read Main.reading s =
    if s.session_closed || s.broken then record s { main = Main.closing_shell } else s
fail_read _ s = s

abbrev pub write_text : Main → State → State
write_text (Main.writing d) s =
    if s.shell_closed || s.shell_full
    then s
    else record s { typed = s.typed ++ d; main = Main.reading }
write_text _ s = s

abbrev pub fail_write : Main → State → State
fail_write (Main.writing d) s =
    if s.shell_closed || s.exited then record s { main = Main.closing_shell } else s
fail_write _ s = s

-- `Close` of the shell also kills it and waits for it.
abbrev pub close_next : Main → State → State
close_next Main.closing_shell s = record s {
  shell_closed = true;
  exited = true;
  main = Main.closing_session;
}
close_next Main.closing_session s = record s { session_closed = true; main = Main.returned }
close_next _ s = s

-- A read of the shell gives some of its output, with an error at the end or without.
abbrev pub read_output : Pump → ℕ → Bool → State → State
read_output Pump.reading n last s =
    if leb 1 n
      && leb n buffer
      && leb n (length s.output)
      && not s.shell_closed
      && (not last || s.exited)
    then record s { output = drop n s.output; pump = Pump.writing (take n s.output) last }
    else s
read_output _ n last s = s

abbrev pub fail_output : Pump → State → State
fail_output Pump.reading s =
    if s.shell_closed || s.exited then record s { pump = Pump.closing } else s
fail_output _ s = s

abbrev pub after_write : Bool → Pump
after_write last = if last then Pump.closing else Pump.reading

abbrev pub send : Pump → State → State
send (Pump.writing b last) s =
    if s.session_closed || s.session_full
    then s
    else record s { sent = s.sent ++ b; pump = after_write last }
send _ s = s

abbrev pub fail_send : Pump → State → State
fail_send (Pump.writing b last) s =
    if s.session_closed || s.broken then record s { pump = Pump.closing } else s
fail_send _ s = s

abbrev pub close_session : Pump → State → State
close_session Pump.closing s = record s { session_closed = true; pump = Pump.finished }
close_session _ s = s

-- What the two loops do.
pub data Loop : Type 0 where
  reads_text : Loop
  fails_read : Loop
  writes_text : Loop
  fails_write : Loop
  closes_next : Loop
  reads_output : ℕ → Bool → Loop
  fails_output : Loop
  sends : Loop
  fails_send : Loop
  closes_session : Loop

unfoldable pub loop_step : Loop → State → State
loop_step Loop.reads_text s = read_text s.main s.inbox s
loop_step Loop.fails_read s = fail_read s.main s
loop_step Loop.writes_text s = write_text s.main s
loop_step Loop.fails_write s = fail_write s.main s
loop_step Loop.closes_next s = close_next s.main s
loop_step (Loop.reads_output n last) s = read_output s.pump n last s
loop_step Loop.fails_output s = fail_output s.pump s
loop_step Loop.sends s = send s.pump s
loop_step Loop.fails_send s = fail_send s.pump s
loop_step Loop.closes_session s = close_session s.pump s

-- The client sends, the session breaks, the shell prints or exits, the terminal or the connection fills
-- or has room again, or a loop goes on.
pub data Action : Type 0 where
  arrives : Bytes → Action
  breaks : Action
  prints : Bytes → Action
  exits : Action
  fills_shell : Bool → Action
  fills_session : Bool → Action
  loops : Loop → Action

unfoldable pub step : Action → State → State
step (Action.arrives d) s =
    if s.session_closed then s else record s { arrived = s.arrived ++ d; inbox = s.inbox ++ d ∷ [] }
step Action.breaks s = record s { broken = true }
step (Action.prints b) s =
    if s.exited then s else record s { printed = s.printed ++ b; output = s.output ++ b }
step Action.exits s = record s { exited = true }
step (Action.fills_shell full) s = record s { shell_full = full }
step (Action.fills_session full) s = record s { session_full = full }
step (Action.loops l) s = loop_step l s

unfoldable pub run : List Action → State → State
run [] s = s
run (a ∷ rest) s = run rest (step a s)
