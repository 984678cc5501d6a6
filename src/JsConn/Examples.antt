-- ===== src/JsConn/Examples.antt =====
-- A browser that opens, hands over two messages and closes, and a program that reads one.
use netso.Common.{◌≤◌, true, false, not, List, [], ◌∷◌, ◌++◌, length, if◌then◌else◌, ◌≡◌, refl, ◌⊎◌}
use netso.Common.Bytes.{Bytes, codes}
use netso.JsConn.{
  Dial, State, dialing, close, on_open, on_message, on_error, on_close, dial_returns, write_msg,
  read_msg, Action, step, run,
}
use netso.JsConn.Order.{waiting_of, messages-arrive}

abbrev session : List Action
session =
    Action.opens
    ∷ Action.message (codes "early")
    ∷ Action.dialed
    ∷ Action.writes (codes "hello")
    ∷ Action.message (codes "second")
    ∷ Action.reads false
    ∷ Action.closes
    ∷ Action.message (codes "late")
    ∷ Action.writes (codes "again")
    ∷ []

abbrev after : State
after = run session dialing

test_after :
    (after.taken ≡ codes "early" ∷ [])
    × (after.incoming ≡ codes "second" ∷ [])
    × (after.sent ≡ codes "hello" ∷ [])
    × (after.ws_closes ≡ 1)
unfolding run step dialing on_open on_message on_close dial_returns close write_msg read_msg
test_after = (refl, refl, refl, refl)

-- A dial that fails gives the error and a closed connection.
test_refused :
    let s = run (Action.errs ∷ Action.dialed ∷ []) dialing in
    (s.dial ≡ Dial.refused (codes "transport: websocket error")) × (s.closed ≡ true)
unfolding run step dialing on_error dial_returns close
test_refused = (refl, refl)

messages-arrive_example :
    ((lost : List Bytes) × (after.arrived
        ≡ after.taken ++ (after.incoming ++ (waiting_of after.held ++ lost)))
      × ((after.closed ≡ true) ⊎ (lost ≡ [])))
    × (length after.incoming ≤ 32)
    × (after.ws_closes ≡ (if after.closed then 1 else 0))
    × (after.listening ≡ not after.closed)
messages-arrive_example = messages-arrive session
