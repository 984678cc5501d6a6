-- ===== src/Pipe/Examples.antt =====
-- A pipe that one end closes behind two messages.
use netso.Common.{◌≡◌, ◌≤◌, ◌++◌, false, List, [], ◌∷◌, length}
use netso.Common.Bytes.{codes}
use netso.Pipe.{End, out, pipe}
use netso.Pipe.Order.{Call, run, written, arrived, written-arrived}

abbrev calls : List Call
calls =
    Call.write End.a false (codes "one")
    ∷ Call.write End.a false (codes "two")
    ∷ Call.read End.b false
    ∷ Call.close
    ∷ Call.read End.b false
    ∷ []

written-arrived_example :
    (written End.a calls pipe ≡ arrived End.a calls pipe ++ out End.a (run calls pipe))
    × (length (out End.a (run calls pipe)) ≤ 16)
written-arrived_example = written-arrived End.a calls
