-- ===== src/JsConn.antt =====
-- internal/transport/transport_js.go: the connection over a browser's websocket, as steps: what the
-- browser's event loop does, and what the program calls. A callback that waits holds the event loop
-- up, so that no other event comes before it returns. A `select` whose two cases are both ready picks
-- either: which one is an argument, true for the closed channel. The bytes of a message pass between
-- the browser and the program as they are.
pub mod Order
mod Examples
use netso.Common.{
  ℕ, ◌+◌, Bool, true, false, not, ◌&&◌, ◌||◌, leb, Option, none, some, List, [], ◌∷◌, ◌++◌, length,
  if◌then◌else◌,
}
use netso.Common.Bytes.{Bytes, codes}

-- Where `DialWS` stands.
pub data Dial : Type 0 where
  waiting : Dial
  opened : Dial
  refused : Bytes → Dial

-- `open_ch` and `incoming` are what the channels hold, and `held` is the message of a callback that
-- waits. `listening` is true until the callbacks are released. `sent` is what the websocket was given
-- to send, `arrived` what it has handed to the message callback, and `taken` what `ReadMsg` returned.
pub record State : Type 0 where
  pub dial : Dial
  pub open_ch : List (Option Bytes)
  pub incoming : List Bytes
  pub held : Option Bytes
  pub closed : Bool
  pub listening : Bool
  pub ws_closes : ℕ
  pub sent : List Bytes
  pub arrived : List Bytes
  pub taken : List Bytes

pub data Outcome : Type 0 where
  done : Outcome
  got : Bytes → Outcome
  failed : Outcome
  blocked : Outcome

-- `DialWS` up to its wait.
unfoldable pub dialing : State
dialing = record {
  dial = Dial.waiting;
  open_ch = [];
  incoming = [];
  held = none;
  closed = false;
  listening = true;
  ws_closes = 0;
  sent = [];
  arrived = [];
  taken = [];
}

-- `Close`, whose body is run once.
unfoldable pub close : State → State
close s =
    if s.closed
    then s
    else record s { closed = true; ws_closes = s.ws_closes + 1; listening = false }

-- A send on `openCh`, which has room for one, or else nothing.
abbrev pub offer : Option Bytes → List (Option Bytes) → List (Option Bytes)
offer x [] = x ∷ []
offer x (y ∷ l) = y ∷ l

abbrev pub is_waiting : Dial → Bool
is_waiting Dial.waiting = true
is_waiting _ = false

-- The callback of "open", released when `DialWS` goes on.
unfoldable pub on_open : State → State
on_open s = if is_waiting s.dial then record s { open_ch = offer none s.open_ch } else s

-- The callback of "message".
unfoldable pub on_message : Bytes → State → State
on_message m s =
    if not s.listening
    then s
    else if leb (length s.incoming + 1) 32
    then record s { arrived = s.arrived ++ m ∷ []; incoming = s.incoming ++ m ∷ [] }
    else record s { arrived = s.arrived ++ m ∷ []; held = some m }

-- The callbacks of "error" and "close".
unfoldable pub on_error : State → State
on_error s =
    if not s.listening
    then s
    else close (record s { open_ch = offer (some (codes "transport: websocket error")) s.open_ch })

unfoldable pub on_close : State → State
on_close s = if not s.listening then s else close s

-- `DialWS` goes on when `openCh` has something.
abbrev pub go_on : List (Option Bytes) → State → State
go_on [] s = s
go_on (none ∷ rest) s = record s { open_ch = rest; dial = Dial.opened }
go_on (some e ∷ rest) s = close (record s { open_ch = rest; dial = Dial.refused e })

unfoldable pub dial_returns : State → State
dial_returns s = if is_waiting s.dial then go_on s.open_ch s else s

-- The waiting message callback, when its `select` is tried again.
abbrev pub retry : Bool → Option Bytes → State → State
retry pick none s = s
retry pick (some m) s =
    let room = leb (length s.incoming + 1) 32 in
    if s.closed && (pick || not room)
    then record s { held = none }
    else if room
    then record s { held = none; incoming = s.incoming ++ m ∷ [] }
    else s

unfoldable pub resume : Bool → State → State
resume pick s = retry pick s.held s

unfoldable pub write_msg : Bytes → State → State × Outcome
write_msg p s =
    if s.closed then (s, Outcome.failed) else (record s { sent = s.sent ++ p ∷ [] }, Outcome.done)

abbrev pub receive : Bool → List Bytes → State → State × Outcome
receive pick [] s = (s, if s.closed then Outcome.failed else Outcome.blocked)
receive pick (m ∷ rest) s =
    if s.closed && pick
    then (s, Outcome.failed)
    else (record s { incoming = rest; taken = s.taken ++ m ∷ [] }, Outcome.got m)

unfoldable pub read_msg : Bool → State → State × Outcome
read_msg pick s = receive pick s.incoming s

-- An event of the browser, a goroutine that goes on, or a call of the program.
pub data Action : Type 0 where
  opens : Action
  message : Bytes → Action
  errs : Action
  closes : Action
  dialed : Action
  resumes : Bool → Action
  writes : Bytes → Action
  reads : Bool → Action
  ends : Action

-- An event waits while a callback does, and a call needs a connection that `DialWS` has returned.
abbrev pub idle : Option Bytes → Bool
idle none = true
idle (some m) = false

abbrev pub is_opened : Dial → Bool
is_opened Dial.opened = true
is_opened _ = false

unfoldable pub step : Action → State → State
step Action.opens s = if idle s.held then on_open s else s
step (Action.message m) s = if idle s.held then on_message m s else s
step Action.errs s = if idle s.held then on_error s else s
step Action.closes s = if idle s.held then on_close s else s
step Action.dialed s = dial_returns s
step (Action.resumes pick) s = resume pick s
step (Action.writes p) s = if is_opened s.dial then (write_msg p s).0 else s
step (Action.reads pick) s = if is_opened s.dial then (read_msg pick s).0 else s
step Action.ends s = if is_opened s.dial then close s else s

unfoldable pub run : List Action → State → State
run [] s = s
run (a ∷ rest) s = run rest (step a s)
