-- ===== src/Pipe.antt =====
-- internal/transport/transport.go: the in-memory pair of connections. A `select` whose two cases are
-- both ready picks either: which one is an argument, true for the closed channel. A call that cannot
-- go on leaves the pipe as it is and is `blocked`.
pub mod Order
mod Examples
use netso.Common.{
  ℕ, ◌+◌, Bool, true, false, not, ◌&&◌, ◌||◌, leb, List, [], ◌∷◌, ◌++◌, length, if◌then◌else◌,
}
use netso.Common.Bytes.{Bytes}

-- The two ends that `Pipe` returns.
pub data End : Type 0 where
  a : End
  b : End

pub record State : Type 0 where
  pub a2b : List Bytes
  pub b2a : List Bytes
  pub closed : Bool

pub data Outcome : Type 0 where
  wrote : Outcome
  got : Bytes → Outcome
  failed : Outcome
  blocked : Outcome

unfoldable pub pipe : State
pipe = record { a2b = []; b2a = []; closed = false }

-- The channel that an end writes to, and the one that it reads from.
abbrev pub out : End → State → List Bytes
out End.a p = p.a2b
out End.b p = p.b2a

abbrev pub other : End → End
other End.a = End.b
other End.b = End.a

abbrev pub set_out : End → List Bytes → State → State
set_out End.a queue p = record p { a2b = queue }
set_out End.b queue p = record p { b2a = queue }

-- Whether the `select` returns the error, given that its other case is ready or not.
abbrev pub fails : Bool → Bool → State → Bool
fails pick ready p = p.closed && (pick || not ready)

unfoldable pub write_msg : End → Bool → Bytes → State → State × Outcome
write_msg e pick m p =
    let room = leb (length (out e p) + 1) 16 in
    if fails pick room p
    then (p, Outcome.failed)
    else if room
    then (set_out e (out e p ++ m ∷ []) p, Outcome.wrote)
    else (p, Outcome.blocked)

-- The receive from a channel.
abbrev pub receive : End → Bool → List Bytes → State → State × Outcome
receive e pick [] p = (p, if p.closed then Outcome.failed else Outcome.blocked)
receive e pick (m ∷ rest) p =
    if fails pick true p then (p, Outcome.failed) else (set_out (other e) rest p, Outcome.got m)

unfoldable pub read_msg : End → Bool → State → State × Outcome
read_msg e pick p = receive e pick (out (other e) p) p

-- `Close` of either end.
unfoldable pub close : State → State
close p = record p { closed = true }
