-- ===== src/Audit/Examples.antt =====
-- A log of three sessions for the theorems on it.
use Prim.Native.Nat.{min}
use mathlib.Core.List.{reverse}
use netso.Common.{◌≡◌, some, List, [], ◌∷◌, take, All, arith}
use netso.Common.Bytes.{codes}
use netso.Common.Int.{pos}
use netso.Audit.{new_log, active, recent}
use netso.Audit.Count.{Call, IsTimed, open_count, run, log_correct}

abbrev calls : List Call
calls =
    Call.start 5 (codes "office") (codes "dev")
    ∷ Call.start 6 (codes "office") (codes "db")
    ∷ Call.end 7 (some 0)
    ∷ Call.start 8 (codes "site") (codes "dev")
    ∷ []

calls-IsTimed : All IsTimed calls
calls-IsTimed = (tt, (tt, ((λ e. ground arith), (tt, tt))))

log_correct_example :
    let l = run calls (new_log (pos 2)) in
    (active l ≡ open_count l.sessions)
    × (recent (pos 2) l ≡ some (take (min 2 (new_log (pos 2)).max) (reverse l.sessions)))
log_correct_example = log_correct (pos 2) calls 2 calls-IsTimed
