-- ===== src/Agent/Serve/Examples.antt =====
-- A client that sends its key in the clear to a machine that counts its shells.
use netso.Common.{◌≡◌, ◌⊎◌, refl, Bool, true, false, none, some, List, [], ◌∷◌, ℕ, arith}
use netso.Common.Bytes.{Bytes, codes, str_eq}
use netso.Common.Result.{Result, ok, err}
use netso.Secure.{
  Error, Keypair, Noise, Session, handshake, respond, admit, session_of, authorized, authorized_in,
}
use netso.Secure.Admission.{IsAdmitted}
use netso.Agent.Serve.{Host, shell_path, shell_start, attach, serve}
use netso.Agent.Serve.Admits.{IsHost, serve-admits}

pub record World : Type 0 where
  pub received : List Bytes
  pub closed : Bool
  pub shells : List Bytes

abbrev take_message : List Bytes → World → World × Result Bytes Bytes
take_message [] w = (w, err (codes "closed"))
take_message (m ∷ rest) w = (record w { received = rest }, ok m)

abbrev host : Host World
host = record {
  dial = λ url w. (w, none);
  conn = record {
    write_msg = λ m w. (w, none);
    read_msg = λ w. take_message w.received w;
    close = λ w. record w { closed = true };
  };
  start = λ path w. (record w { shells = path ∷ w.shells }, none);
}

abbrev plain : Noise
plain = record {
  State = Bytes;
  Cipher = ℕ;
  new = λ cfg. ok cfg.peer_static;
  write_message = λ hs. ok (hs, codes "hello", some 0, some 1);
  read_message = λ hs m. ok (m, none, none);
  peer_static = λ hs. hs;
  encrypt = λ n p. ok (ℕ.suc n, p);
  decrypt = λ n p. ok (ℕ.suc n, p);
}

abbrev alice : Bytes
alice = codes "alice"

abbrev keys : Keypair
keys = record { private = codes "private"; public = codes "public" }

abbrev world : World
world = record { received = alice ∷ []; closed = false; shells = [] }

abbrev outcome : World × Result Error (Session ℕ)
outcome = serve host plain (codes "ws://hub") keys (alice ∷ []) [] world

test_outcome : outcome.1 ≡ ok (record { send = 1; recv = 0; peer_static = alice })
unfolding serve handshake respond admit session_of authorized authorized_in str_eq attach
    shell_start
test_outcome = refl

test_shell : outcome.0.shells ≡ codes "/bin/sh" ∷ []
unfolding serve handshake respond admit session_of authorized authorized_in str_eq attach
    shell_start
test_shell = refl

take-shells : (l : List Bytes) (w : World) → (take_message l w).0.shells ≡ w.shells
take-shells [] w = refl
take-shells (m ∷ rest) w = refl

host-IsHost : IsHost host plain keys (alice ∷ []) (λ w. w.shells) (λ w. w.closed)
host-IsHost = record {
  dial_shells = λ url w. refl;
  read_shells = λ w. take-shells w.received w;
  write_shells = λ m w. refl;
  close_shells = λ w. refl;
  started = λ path w e. refl;
  not_started = λ path e w h. absurd (ground arith);
  close_closes = λ w. refl;
}

serve-admits_example :
    ((sess : Session ℕ) × (outcome.1 ≡ ok sess)
      × IsAdmitted sess.peer_static (alice ∷ [])
      × (outcome.0.shells ≡ shell_path [] ∷ []))
    ⊎ ((e : Error) × (outcome.1 ≡ err e)
        × (outcome.0.shells ≡ [])
        × ((outcome.0.closed ≡ true)
            ⊎ ((d : Bytes) × ((host.dial (codes "ws://hub") world).1 ≡ some d))))
serve-admits_example =
    serve-admits host plain keys (alice ∷ []) (λ w. w.shells) (λ w. w.closed) (codes "ws://hub") []
      world host-IsHost (λ hs done e. ground arith)
