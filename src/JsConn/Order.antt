-- ===== src/JsConn/Order.antt =====
-- internal/transport/transport_js.go: what the websocket hands over is what `ReadMsg` returns, in
-- order, and the connection is closed once.
use netso.Common.{
  ◌+◌, ◌≤◌, Bool, true, false, not, ◌&&◌, ◌||◌, leb, Option, none, some, List, [], ◌∷◌, ◌++◌,
  length, if◌then◌else◌, ◌≡◌, refl, sym, ap, ◌∙◌, inl, inr, ◌⊎◌, if_both, arith, append-[],
  append_assoc, length-append,
}
use netso.Common.Bytes.{Bytes, codes}
use netso.JsConn.{
  Dial, State, dialing, close, on_open, on_message, on_error, on_close, dial_returns, resume,
  is_waiting, is_opened, idle, offer, retry, receive, go_on, Outcome, write_msg, read_msg, Action,
  step, run,
}

-- The message that waits, as a list.
abbrev pub waiting_of : Option Bytes → List Bytes
waiting_of none = []
waiting_of (some m) = m ∷ []

-- A connection with `lost` messages, which a close has cut off.
record IsValid (s : State) : Type 0 where
  lost : List Bytes
  account : s.arrived ≡ s.taken ++ (s.incoming ++ (waiting_of s.held ++ lost))
  kept : (s.closed ≡ true) ⊎ (lost ≡ [])
  room : length s.incoming ≤ 32
  once : s.ws_closes ≡ (if s.closed then 1 else 0)
  released : s.listening ≡ not s.closed

close-IsValid : (s : State) → IsValid s → IsValid (close s)
unfolding close
close-IsValid s v =
    if_both IsValid s.closed _ _ (λ shut. v)
      (λ live. record {
        lost = v.lost;
        account = v.account;
        kept = inl refl;
        room = v.room;
        once = ap (λ n. n + 1) (v.once ∙ ap (λ (b : Bool). if b then 1 else 0) live);
        released = refl;
      })

live_of : (s : State) → IsValid s → s.listening ≡ true → s.closed ≡ false
live_of s v hears = let r = v.released in ground arith

-- Nothing of an open connection is lost.
live_account :
    (s : State)
    → IsValid s
    → s.closed ≡ false
    → s.arrived ≡ s.taken ++ (s.incoming ++ waiting_of s.held)
live_account s v live =
    let whole : v.lost ≡ [] = ground (arith, v.kept) in
    v.account
    ∙ ap (λ l. s.taken ++ (s.incoming ++ (waiting_of s.held ++ l))) whole
    ∙ ap (λ l. s.taken ++ (s.incoming ++ l)) (append-[] (waiting_of s.held))

message-IsValid : (m : Bytes) (s : State) → s.held ≡ none → IsValid s → IsValid (on_message m s)
unfolding on_message
message-IsValid m s quiet v =
    let balance : s.listening ≡ true → s.arrived ++ m ∷ [] ≡ s.taken ++ (s.incoming ++ m ∷ []) =
      λ hears.
        ap (λ l. l ++ m ∷ [])
          (live_account s v (live_of s v hears)
            ∙ ap (λ h. s.taken ++ (s.incoming ++ waiting_of h)) quiet
            ∙ ap (λ l. s.taken ++ l) (append-[] s.incoming))
        ∙ append_assoc s.taken s.incoming (m ∷ []) in
    if_both IsValid (not s.listening) _ _ (λ deaf. v)
      (λ heard.
        let hears : s.listening ≡ true = ground arith in
        if_both IsValid (leb (length s.incoming + 1) 32) _ _
          (λ room. record {
            lost = [];
            account =
                balance hears
                ∙ ap (λ l. s.taken ++ l)
                    (sym (append-[] (s.incoming ++ m ∷ []))
                      ∙ ap (λ h. (s.incoming ++ m ∷ []) ++ (waiting_of h ++ [])) (sym quiet));
            kept = inr refl;
            room = ground (arith, length-append s.incoming (m ∷ []));
            once = v.once;
            released = v.released;
          })
          (λ full. record {
            lost = [];
            account = balance hears;
            kept = inr refl;
            room = v.room;
            once = v.once;
            released = v.released;
          }))

retry-IsValid :
    (pick : Bool) (o : Option Bytes) (s : State) → s.held ≡ o → IsValid s → IsValid (retry pick o s)
retry-IsValid pick none s e v = v
retry-IsValid pick (some m) s held v =
    let balance : s.arrived ≡ s.taken ++ (s.incoming ++ m ∷ v.lost) =
      v.account ∙ ap (λ h. s.taken ++ (s.incoming ++ (waiting_of h ++ v.lost))) held in
    if_both IsValid (s.closed && (pick || not (leb (length s.incoming + 1) 32))) _ _
      (λ cut. record {
        lost = m ∷ v.lost;
        account = balance;
        kept = inl (ground arith);
        room = v.room;
        once = v.once;
        released = v.released;
      })
      (λ kept.
        if_both IsValid (leb (length s.incoming + 1) 32) _ _
          (λ room. record {
            lost = v.lost;
            account =
                balance ∙ ap (λ l. s.taken ++ l) (sym (append_assoc s.incoming (m ∷ []) v.lost));
            kept = v.kept;
            room = ground (arith, length-append s.incoming (m ∷ []));
            once = v.once;
            released = v.released;
          })
          (λ full. v))

receive-IsValid :
    (pick : Bool) (l : List Bytes) (s : State)
    → s.incoming ≡ l
    → IsValid s
    → IsValid (receive pick l s).0
receive-IsValid pick [] s e v = v
receive-IsValid pick (m ∷ rest) s queue v =
    if_both (λ (x : State × Outcome). IsValid x.0) (s.closed && pick) _ _ (λ cut. v)
      (λ kept. record {
        lost = v.lost;
        account =
            v.account
            ∙ ap (λ l. s.taken ++ (l ++ (waiting_of s.held ++ v.lost))) queue
            ∙ sym (append_assoc s.taken (m ∷ []) (rest ++ (waiting_of s.held ++ v.lost)));
        kept = v.kept;
        room = ground (arith, v.room, ap length queue);
        once = v.once;
        released = v.released;
      })

-- The invariant is not about how the dial stands, nor about what was sent.
aside :
    (d : Dial) (l : List (Option Bytes)) (sent : List Bytes) (s : State)
    → IsValid s
    → IsValid (record s { dial = d; open_ch = l; sent = sent })
aside d l sent s v = record {
  lost = v.lost;
  account = v.account;
  kept = v.kept;
  room = v.room;
  once = v.once;
  released = v.released;
}

go_on-IsValid : (l : List (Option Bytes)) (s : State) → IsValid s → IsValid (go_on l s)
go_on-IsValid [] s v = v
go_on-IsValid (none ∷ rest) s v = aside Dial.opened rest s.sent s v
go_on-IsValid (some e ∷ rest) s v =
    close-IsValid (record s { open_ch = rest; dial = Dial.refused e })
      (aside (Dial.refused e) rest s.sent s v)

error-IsValid : (s : State) → IsValid s → IsValid (on_error s)
unfolding on_error
error-IsValid s v =
    if_both IsValid (not s.listening) _ _ (λ deaf. v)
      (λ hears.
        close-IsValid (record s { open_ch = offer failure s.open_ch })
          (aside s.dial (offer failure s.open_ch) s.sent s v))
  where
    failure : Option Bytes
    failure = some (codes "transport: websocket error")

step-IsValid : (a : Action) (s : State) → IsValid s → IsValid (step a s)
unfolding step on_open on_close dial_returns resume read_msg write_msg
step-IsValid Action.opens s v =
    if_both IsValid (idle s.held) _ _
      (λ quiet.
        if_both IsValid (is_waiting s.dial) _ _
          (λ early. aside s.dial (offer none s.open_ch) s.sent s v) (λ late. v))
      (λ busy. v)
step-IsValid (Action.message m) s v =
    if_both IsValid (idle s.held) _ _ (λ quiet. message-IsValid m s (ground arith) v) (λ busy. v)
step-IsValid Action.errs s v =
    if_both IsValid (idle s.held) _ _ (λ quiet. error-IsValid s v) (λ busy. v)
step-IsValid Action.closes s v =
    if_both IsValid (idle s.held) _ _
      (λ quiet. if_both IsValid (not s.listening) _ _ (λ deaf. v) (λ hears. close-IsValid s v))
      (λ busy. v)
step-IsValid Action.dialed s v =
    if_both IsValid (is_waiting s.dial) _ _ (λ early. go_on-IsValid s.open_ch s v) (λ late. v)
step-IsValid (Action.resumes pick) s v = retry-IsValid pick s.held s refl v
step-IsValid (Action.writes p) s v =
    if_both IsValid (is_opened s.dial) _ _
      (λ open_now.
        if_both (λ (x : State × Outcome). IsValid x.0) s.closed _ _ (λ shut. v)
          (λ live. aside s.dial s.open_ch (s.sent ++ p ∷ []) s v))
      (λ early. v)
step-IsValid (Action.reads pick) s v =
    if_both IsValid (is_opened s.dial) _ _ (λ open_now. receive-IsValid pick s.incoming s refl v)
      (λ early. v)
step-IsValid Action.ends s v =
    if_both IsValid (is_opened s.dial) _ _ (λ open_now. close-IsValid s v) (λ early. v)

run-IsValid : (l : List Action) (s : State) → IsValid s → IsValid (run l s)
unfolding run
run-IsValid [] s v = v
run-IsValid (a ∷ rest) s v = run-IsValid rest (step a s) (step-IsValid a s v)

-- After any events of the browser and any calls of the program, in any order, from the dial on: what
-- the websocket has handed over is what `ReadMsg` returned, in order, each message once, followed by
-- what is in the channel, by the message of a callback that waits, and by what a close has cut off,
-- which is nothing while the connection is open. The channel holds at most thirty-two messages, and the
-- websocket was closed once if the connection is closed and otherwise not, when its callbacks are
-- released too.
pub messages-arrive :
    (l : List Action)
    → let s = run l dialing in
      ((lost : List Bytes) × (s.arrived ≡ s.taken ++ (s.incoming ++ (waiting_of s.held ++ lost)))
        × ((s.closed ≡ true) ⊎ (lost ≡ [])))
      × (length s.incoming ≤ 32)
      × (s.ws_closes ≡ (if s.closed then 1 else 0))
      × (s.listening ≡ not s.closed)
unfolding dialing
messages-arrive l =
    let v = run-IsValid l dialing (record {
      lost = [];
      account = refl;
      kept = inr refl;
      room = omega arith;
      once = refl;
      released = refl;
    }) in
    ((v.lost, v.account, v.kept), v.room, v.once, v.released)
