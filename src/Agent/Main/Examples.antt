-- ===== src/Agent/Main/Examples.antt =====
-- An agent that is told one client and a file that cannot be read, for two rounds.
use netso.Common.{ℕ, ◌≡◌, refl, false, none, some, List, [], ◌∷◌, All, arith}
use netso.Common.Bytes.{Bytes, codes, str_eq}
use netso.Common.Result.{Result, ok, err}
use netso.Base64.{decode_public}
use netso.Secure.{Error, Scanned, Keypair, Noise}
use netso.Secure.Identity.{Faults, resolve_identity, load_keypair}
use netso.Agent.Serve.{Host}
use netso.Agent.Main.{Flags, Ready, prepare, set_up, rounds}
use netso.Agent.Main.Rounds.{IsWelcome, rounds-IsWelcome}

-- The world is what is still to come from the hub.
abbrev take_message : List Bytes → List Bytes × Result Bytes Bytes
take_message [] = ([], err (codes "closed"))
take_message (m ∷ rest) = (rest, ok m)

abbrev host : Host (List Bytes)
host = record {
  dial = λ url w. (w, none);
  conn = record { write_msg = λ m w. (w, none); read_msg = take_message; close = λ w. w };
  start = λ path w. (w, none);
}

abbrev plain : Noise
plain = record {
  State = Bytes;
  Cipher = ℕ;
  new = λ cfg. ok cfg.peer_static;
  write_message = λ hs. ok (hs, codes "hello", some 0, some 1);
  read_message = λ hs m. ok (m, none, none);
  peer_static = λ hs. hs;
  encrypt = λ n p. ok (ℕ.suc n, p);
  decrypt = λ n p. ok (ℕ.suc n, p);
}

abbrev flags : Flags
flags = record {
  hub = codes "http://hub";
  network = codes "office";
  name = codes "dev";
  shell = [];
  identity = [];
  private = [];
  public = [];
  auth_client = codes "QUJD";
  auth_clients = codes "clients";
  once = false;
}

abbrev keys : Keypair
keys = record { private = codes "private"; public = codes "public" }

abbrev no_faults : Faults
no_faults = record { read = none; mkdir = none; write = none }

abbrev ready : Ready
ready = record {
  kp = keys;
  static_allowed = codes "ABC" ∷ [];
  url = netso.Agent.dial_url (codes "http://hub") (codes "office") (codes "dev") (codes "public");
}

flags_in_order : (set_up flags (ok keys) no_faults []).1 ≡ ok ready
unfolding set_up prepare resolve_identity load_keypair decode_public str_eq
    netso.Base64.decode_quads netso.Base64.skip_breaks netso.Base64.value_of
flags_in_order = refl

abbrev unreadable : Result Error Scanned
unreadable = err (Error.library (codes "open"))

rounds-IsWelcome_example :
    All
      (λ r. IsWelcome flags r.file r.outcome)
      (rounds host plain
        (λ w. w)
        flags
        ready
        (unreadable ∷ unreadable ∷ [])
        (codes "ABC" ∷ codes "eve" ∷ []))
rounds-IsWelcome_example =
    rounds-IsWelcome host plain (λ w. w) flags (ok keys) no_faults [] ready
      (unreadable ∷ unreadable ∷ []) (codes "ABC" ∷ codes "eve" ∷ []) (λ e. ground arith)
      flags_in_order (λ hs done e. ground arith)
