-- ===== src/WsConn.antt =====
-- internal/transport/transport_ws.go: a connection over a websocket of the library, with calls of its
-- methods by any goroutines. The library's websocket is a parameter, with the state of the world passed
-- on; it allows one writer at a time. A step that cannot be taken changes nothing.
pub mod Exclusive
mod Examples
use netso.Common.{ℕ, Option, none, some, List, [], ◌∷◌, ◌++◌, get_elem?, set}
use netso.Common.Bytes.{Bytes}
use netso.Common.Result.{Result}

-- `WriteMessage` with a binary message, `ReadMessage` without the type, and `Close`.
pub record Websocket (W : Type 0) : Type 0 where
  pub write_message : Bytes → W → W × Option Bytes
  pub read_message : W → W × Result Bytes Bytes
  pub close : W → W × Option Bytes

-- Where a call of `WriteMsg` stands: at `Lock`, inside `WriteMessage`, or returned.
pub data Call : Type 0 where
  locking : Bytes → Call
  writing : Bytes → Call
  returned : Option Bytes → Call

-- `mutex` is the call that holds the mutex.
pub record State (W : Type 0) : Type 0 where
  pub mutex : Option ℕ
  pub calls : List Call
  pub world : W

abbrev pub start : {W : Type 0} → W → State W
start w = record { mutex = none; calls = []; world = w }

pub data Action : Type 0 where
  call : Bytes → Action
  lock_at : ℕ → Action
  write_at : ℕ → Action
  read : Action
  shut : Action

module _ {W : Type 0} (ws : Websocket W) where
  abbrev pub write_msg : Bytes → State W → State W
  write_msg p s = record s { calls = s.calls ++ Call.locking p ∷ [] }

  -- `Lock` returns when nobody holds the mutex.
  abbrev pub lock : ℕ → Option ℕ → Option Call → State W → State W
  lock i none (some (Call.locking p)) s = record s {
    mutex = some i;
    calls = set s.calls i (Call.writing p);
  }
  lock i _ _ s = s

  -- `WriteMessage` returns, and the deferred `Unlock` is run.
  abbrev pub finish : ℕ → Option Call → State W → State W
  finish i (some (Call.writing p)) s =
      let (w, werr) = ws.write_message p s.world in
      record { mutex = none; calls = set s.calls i (Call.returned werr); world = w }
  finish i _ s = s

  abbrev pub read_msg : State W → State W × Result Bytes Bytes
  read_msg s = let (w, msg) = ws.read_message s.world in (record s { world = w }, msg)

  abbrev pub close : State W → State W × Option Bytes
  close s = let (w, cerr) = ws.close s.world in (record s { world = w }, cerr)

  unfoldable pub step : Action → State W → State W
  step (Action.call p) s = write_msg p s
  step (Action.lock_at i) s = lock i s.mutex (get_elem? s.calls i) s
  step (Action.write_at i) s = finish i (get_elem? s.calls i) s
  step Action.read s = (read_msg s).0
  step Action.shut s = (close s).0

  unfoldable pub run : List Action → State W → State W
  run [] s = s
  run (a ∷ acts) s = run acts (step a s)
