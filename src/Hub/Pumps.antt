-- ===== src/Hub/Pumps.antt =====
-- cmd/netso-hub/main.go: `relay` and its two `copyMsgs` goroutines, as steps that come in any order. A
-- connection gets frames from its peer until it is closed, and may break. A read gives the next frame,
-- or fails on a connection that is closed or broken; a write fails so too, and does not succeed on a
-- closed connection.
pub mod Order
pub mod Ends
pub mod Work
mod Examples
use netso.Common.{
  ℕ, ◌+◌, ◌-◌, leb, Bool, true, false, not, ◌||◌, ◌&&◌, List, [], ◌∷◌, ◌++◌, if◌then◌else◌,
}
use netso.Common.Bytes.{Bytes}

-- A websocket message with its type.
pub record Frame : Type 0 where
  pub kind : ℕ
  pub payload : Bytes

pub data End : Type 0 where
  client : End
  agent : End

abbrev pub other : End → End
other End.client = End.agent
other End.agent = End.client

-- All that has come from the peer, what of it is not yet read, and all that was written to the peer.
pub record Wire : Type 0 where
  pub arrived : List Frame
  pub inbox : List Frame
  pub written : List Frame
  pub closed : Bool
  pub broken : Bool

-- Where a `copyMsgs` stands: before its read, before its write, or behind the send on `done`.
pub data Pump : Type 0 where
  reading : Pump
  holding : Frame → Pump
  finished : Pump

-- Where `relay` stands.
pub data Main : Type 0 where
  first : Main
  close_client : Main
  close_agent : Main
  second : Main
  returned : Main

-- `from_client` reads from the client and writes to the agent. `done` is the count in the channel.
pub record State : Type 0 where
  pub client : Wire
  pub agent : Wire
  pub from_client : Pump
  pub from_agent : Pump
  pub done : ℕ
  pub main : Main

abbrev pub fresh : Wire
fresh = record { arrived = []; inbox = []; written = []; closed = false; broken = false }

abbrev pub start : State
start = record {
  client = fresh;
  agent = fresh;
  from_client = Pump.reading;
  from_agent = Pump.reading;
  done = 0;
  main = Main.first;
}

abbrev pub wire : End → State → Wire
wire End.client s = s.client
wire End.agent s = s.agent

abbrev pub set_wire : End → Wire → State → State
set_wire End.client w s = record s { client = w }
set_wire End.agent w s = record s { agent = w }

-- The pump that reads from an end.
abbrev pub pump : End → State → Pump
pump End.client s = s.from_client
pump End.agent s = s.from_agent

abbrev pub set_pump : End → Pump → State → State
set_pump End.client p s = record s { from_client = p }
set_pump End.agent p s = record s { from_agent = p }

-- What the peers do, what a pump does, and what `relay` does.
pub data Action : Type 0 where
  arrive : End → Frame → Action
  break : End → Action
  read : End → Action
  fail_read : End → Action
  write : End → Action
  fail_write : End → Action
  proceed : Action

abbrev pub is_reading : Pump → Bool
is_reading Pump.reading = true
is_reading _ = false

abbrev pub is_holding : Pump → Bool
is_holding (Pump.holding f) = true
is_holding _ = false

abbrev pub some_frame : List Frame → Bool
some_frame [] = false
some_frame (f ∷ l) = true

abbrev pub can_proceed : Main → ℕ → Bool
can_proceed Main.first done = leb 1 done
can_proceed Main.close_client done = true
can_proceed Main.close_agent done = true
can_proceed Main.second done = leb 1 done
can_proceed Main.returned done = false

unfoldable pub enabled : Action → State → Bool
enabled (Action.arrive e f) s = not (wire e s).closed
enabled (Action.break e) s = not (wire e s).closed && not (wire e s).broken
enabled (Action.read e) s = is_reading (pump e s) && some_frame (wire e s).inbox
enabled (Action.fail_read e) s = is_reading (pump e s) && ((wire e s).closed || (wire e s).broken)
enabled (Action.write e) s = is_holding (pump e s) && not (wire (other e) s).closed
enabled (Action.fail_write e) s =
    is_holding (pump e s) && ((wire (other e) s).closed || (wire (other e) s).broken)
enabled Action.proceed s = can_proceed s.main s.done

abbrev pub hold_next : End → List Frame → State → State
hold_next e [] s = s
hold_next e (f ∷ rest) s =
    set_pump e (Pump.holding f) (set_wire e (record (wire e s) { inbox = rest }) s)

abbrev pub write_held : End → Pump → State → State
write_held e (Pump.holding f) s =
    let w = wire (other e) s in
    set_pump e Pump.reading (set_wire (other e) (record w { written = w.written ++ f ∷ [] }) s)
write_held e _ s = s

-- The loop breaks, and the pump sends on `done`.
abbrev pub finish : End → State → State
finish e s = set_pump e Pump.finished (record s { done = s.done + 1 })

-- `<-done; a.Close(); b.Close(); <-done`
abbrev pub next : Main → State → State
next Main.first s = record s { done = s.done - 1; main = Main.close_client }
next Main.close_client s = record s {
  client = record s.client { closed = true };
  main = Main.close_agent;
}
next Main.close_agent s = record s { agent = record s.agent { closed = true }; main = Main.second }
next Main.second s = record s { done = s.done - 1; main = Main.returned }
next Main.returned s = s

unfoldable pub perform : Action → State → State
perform (Action.arrive e f) s =
    let w = wire e s in
    set_wire e (record w { arrived = w.arrived ++ f ∷ []; inbox = w.inbox ++ f ∷ [] }) s
perform (Action.break e) s = set_wire e (record (wire e s) { broken = true }) s
perform (Action.read e) s = hold_next e (wire e s).inbox s
perform (Action.fail_read e) s = finish e s
perform (Action.write e) s = write_held e (pump e s) s
perform (Action.fail_write e) s = finish e s
perform Action.proceed s = next s.main s

-- An action that cannot be taken is not.
unfoldable pub step : Action → State → State
step a s = if enabled a s then perform a s else s

unfoldable pub run : List Action → State → State
run [] s = s
run (a ∷ rest) s = run rest (step a s)
