-- ===== src/Client/Interactive/Examples.antt =====
-- A session on a terminal: a command is typed, its output comes, and the session ends.
use netso.Common.{ℕ, ◌≡◌, refl, Bool, true, false, not, ◌&&◌, none, List, [], ◌∷◌, arith}
use netso.Common.Bytes.{Bytes, codes}
use netso.Common.Result.{Result, ok, err}
use netso.Secure
use netso.Secure.{Noise, Session}
use netso.Client.Interactive.{Console, Action, enter, step, run}
use netso.Client.Interactive.Restored.{IsConsole, run-raw}

pub record World : Type 0 where
  pub mode : Bool
  pub incoming : List Bytes

abbrev take_message : List Bytes → World → World × Result Bytes Bytes
take_message [] w = (w, err (codes "EOF"))
take_message (m ∷ rest) w = (record w { incoming = rest }, ok m)

abbrev console : Console World
console = record {
  is_terminal = λ w. true;
  make_raw = λ w. (record w { mode = true }, none);
  restore = λ w. record w { mode = false };
  print = λ p w. w;
  conn = record {
    write_msg = λ m w. (w, none);
    read_msg = λ w. take_message w.incoming w;
    close = λ w. w;
  };
}

abbrev plain : Noise
plain = record {
  State = Bytes;
  Cipher = ℕ;
  new = λ cfg. ok cfg.peer_static;
  write_message = λ hs. ok (hs, codes "hello", none, none);
  read_message = λ hs m. ok (hs, none, none);
  peer_static = λ hs. hs;
  encrypt = λ n p. ok (ℕ.suc n, p);
  decrypt = λ n p. ok (ℕ.suc n, p);
}

take-mode : (l : List Bytes) (w : World) → (take_message l w).0.mode ≡ w.mode
take-mode [] w = refl
take-mode (m ∷ rest) w = refl

console-IsConsole : IsConsole console plain (λ w. w.mode)
console-IsConsole = record {
  made = λ w done. refl;
  not_made = λ w e failed. absurd (ground arith);
  restored = λ w. refl;
  printed = λ p w. refl;
  sent = λ m w. refl;
  received = λ w. take-mode w.incoming w;
}

abbrev established : Session ℕ
established = record { send = 0; recv = 0; peer_static = codes "key" }

abbrev world : World
world = record { mode = false; incoming = codes "a.txt" ∷ [] }

abbrev session : List Action
session = Action.types (codes "ls") false ∷ Action.reads ∷ Action.reads ∷ []

run-raw_example :
    let s = run console plain session (enter console plain established world) in
    s.world.mode ≡ (s.deferred && not s.returned)
run-raw_example =
    run-raw console plain (λ w. w.mode) console-IsConsole session established world refl

test_returned : (run console plain session (enter console plain established world)).returned ≡ true
unfolding run step enter Secure.read Secure.write
test_returned = refl
