-- ===== src/WsConn/Examples.antt =====
-- A connection whose websocket keeps what was written, with two calls at once.
use netso.Common.{ℕ, ◌⊎◌, ◌≡◌, refl, none, some, List, [], ◌∷◌, ◌++◌, get_elem?}
use netso.Common.Bytes.{Bytes, codes}
use netso.Common.Result.{err}
use netso.WsConn.{Websocket, Call, Action, start, step, run}
use netso.WsConn.Exclusive.{writers, run-writers}

abbrev ws : Websocket (List Bytes)
ws = record {
  write_message = λ p w. (w ++ p ∷ [], none);
  read_message = λ w. (w, err (codes "closed"));
  close = λ w. (w, none);
}

-- The second call waits while the first one writes.
abbrev both : List Action
both =
    Action.call (codes "one") ∷ Action.call (codes "two") ∷ Action.lock_at 0 ∷ Action.lock_at 1 ∷ []

run-writers_example :
    let s = run ws both (start []) in
    ((s.mutex ≡ none) × (writers s.calls ≡ 0))
    ⊎ ((j : ℕ) × (q : Bytes) × (s.mutex ≡ some j)
        × (get_elem? s.calls j ≡ some (Call.writing q))
        × (writers s.calls ≡ 1))
run-writers_example = run-writers ws both []

test_both :
    (run ws both (start [])).calls ≡ Call.writing (codes "one") ∷ Call.locking (codes "two") ∷ []
unfolding run step
test_both = refl
