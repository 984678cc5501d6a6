-- ===== src/Hub/Examples.antt =====
-- A small hub for the theorems on it: two agents, a client that is brokered to the first, and the
-- end of its relay.
use Prim.Native.Nat.{min}
use mathlib.Core.List.{reverse}
use netso.Common.{◌≡◌, refl, true, ◌||◌, false, some, List, [], ◌∷◌, length, take, All, arith}
use netso.Common.Bytes.{Bytes, codes, str_eq}
use netso.Hub.{Event, handle_status, new_hub, run}
use netso.Hub.Safety.{IsTimed, handle_status-run}

abbrev office : Bytes
office = codes "office"

abbrev dev : Bytes
dev = codes "dev"

abbrev db : Bytes
db = codes "db"

abbrev key : Bytes
key = codes "key"

abbrev events : List Event
events =
    Event.agent office dev key true
    ∷ Event.connect 5 office dev true
    ∷ Event.agent office db key true
    ∷ Event.done 9 0
    ∷ []

events-IsTimed : All IsTimed events
events-IsTimed = (tt, (tt, (tt, ((λ e. ground arith), tt))))

names_given : (str_eq office [] || str_eq dev []) ≡ false
unfolding str_eq
names_given = refl

handle_status-run_example :
    let h = run events new_hub in
    ((handle_status h).active_sessions ≡ length h.relays)
    × ((handle_status h).recent_sessions
        ≡ some (take (min 10 h.audit.max) (reverse h.audit.sessions)))
handle_status-run_example = handle_status-run events events-IsTimed
