-- ===== src/Client/Ssh/Examples.antt =====
-- A hub with one peer on its list and an agent that answers with texts in the clear.
use netso.Common.{
  ℕ, ◌≡◌, ◌≢◌, ◌⊎◌, refl, ap, sym, ◌∙◌, Bool, if◌then◌else◌, true, none, some, List, [], ◌∷◌, ◌++◌,
  arith,
}
use netso.Common.Bytes.{Bytes, codes, str_eq}
use netso.Common.Result.{Result, ok, err}
use netso.Base64.{decode_public, decode_quads, skip_breaks, value_of}
use netso.Registry.{Peer}
use netso.HubClient
use netso.HubClient.{Response, peers_url}
use netso.Secure.{Error, Keypair, MsgConn, Noise, Session, handshake, initiate, session_of}
use netso.Secure
use netso.Secure.Identity.{Faults, resolve_identity, load_keypair}
use netso.Client.{pin_key, find_pin}
use netso.Client.Ssh.{Flags, Host, look_up, open_session, ssh_with, ssh, run_exec}
use netso.Secure.Pinning.{IsPinning}
use netso.Client.Ssh.Pinned.{ssh-pins}
use netso.Secure.Drain.{Gives, ended, given, IsOutput}
use netso.Client.Ssh.Exec.{run_exec-prints}

pub record World : Type 0 where
  pub incoming : List Bytes
  pub output : Bytes

abbrev take_message : List Bytes → World → World × Result Bytes Bytes
take_message [] w = (w, err (codes "closed"))
take_message (m ∷ rest) w = (record w { incoming = rest }, ok m)

abbrev dev : Peer
dev = record { network = codes "office"; name = codes "dev"; pubkey = codes "QUJD" }

abbrev host : Host World
host = record {
  get = λ url w. (w, ok (record { status = 200; body = ok (dev ∷ []) }));
  dial = λ url w. (w, none);
  conn = record {
    write_msg = λ m w. (w, none);
    read_msg = λ w. take_message w.incoming w;
    close = λ w. w;
  };
  print = λ p w. record w { output = w.output ++ p };
}

-- A state is whether it initiates, and the peer's key, which a responder reads.
abbrev plain : Noise
plain = record {
  State = Bool × Bytes;
  Cipher = ℕ;
  new = λ cfg. ok (cfg.initiator, cfg.peer_static);
  write_message = λ hs. ok (hs, codes "hello", none, none);
  read_message = λ hs m. ok ((hs.0, if hs.0 then hs.1 else m), some 0, some 1);
  peer_static = λ hs. hs.1;
  encrypt = λ n p. ok (ℕ.suc n, p);
  decrypt = λ n p. ok (ℕ.suc n, p);
}

abbrev Initiates : Bool × Bytes → Type 0
Initiates hs = hs.0 ≡ true

plain-IsPinning : IsPinning plain Initiates
plain-IsPinning = record {
  made = λ kp pin hs e.
      let same : (true, pin) ≡ hs = cc in (ap (λ x. x.0) (sym same), ap (λ x. x.1) (sym same));
  wrote = λ hs done begun e.
      let same : hs ≡ done.0 = cc in (ap (λ x. x.0) (sym same) ∙ begun, ap (λ x. x.1) (sym same));
  read = λ hs m done begun e.
      let same : (hs.0, if hs.0 then hs.1 else m) ≡ done.0 = cc in
      ap (λ x. x.1) (sym same) ∙ rw begun refl;
}

abbrev no_faults : Faults
no_faults = record { read = none; mkdir = none; write = none }

abbrev flags : Flags
flags = record {
  hub = codes "http://hub";
  network = codes "office";
  peer = codes "dev";
  identity = [];
  priv = [];
  public = [];
  auth_agent = [];
}

abbrev keys : Keypair
keys = record { private = codes "private"; public = codes "public" }

abbrev world : World
world = record { incoming = codes "welcome" ∷ codes "a.txt" ∷ codes "b.txt" ∷ []; output = [] }

abbrev established : Session ℕ
established = record { send = 0; recv = 1; peer_static = codes "ABC" }

opened : (ssh host plain (ok keys) no_faults flags [] world).2 ≡ ok established
unfolding ssh str_eq resolve_identity load_keypair ssh_with look_up HubClient.peers find_pin
    decode_public decode_quads skip_breaks value_of open_session handshake session_of initiate
opened = refl

ssh-pins_example :
    ((flags.auth_agent ≢ []) × (decode_public flags.auth_agent ≡ some (codes "ABC")))
    ⊎ ((peers : List Peer) × (flags.auth_agent ≡ [])
        × ((HubClient.peers host.get flags.hub flags.network world).1 ≡ ok peers)
        × (pin_key [] flags.peer peers ≡ some (codes "ABC")))
ssh-pins_example =
    ssh-pins plain Initiates host (ok keys) no_faults flags [] world established plain-IsPinning
      opened

-- What the agent has sent after the handshake.
abbrev connected : World
connected = record { incoming = codes "a.txt" ∷ codes "b.txt" ∷ []; output = [] }

read-output :
    (sess : Session ℕ) (l : List Bytes) (out : Bytes)
    → let w : World = record { incoming = l; output = out } in
      (Secure.read host.conn plain sess w).1.output ≡ out
unfolding Secure.read
read-output sess [] out = refl
read-output sess (m ∷ l) out = refl

world-IsOutput : IsOutput host.conn plain host.print (λ w. w.output)
world-IsOutput = record {
  prints = λ p w. refl;
  reads = λ sess w. read-output sess w.incoming w.output;
}

gives :
    Gives host.conn plain host.print
      (record established { send = 1 })
      connected
      (codes "a.txt" ∷ codes "b.txt" ∷ [])
unfolding Secure.read
gives = given refl (given refl (ended (codes "closed") refl))

run_exec-prints_example :
    (w' : World) × (run_exec host plain 3 established (codes "ls") connected ≡ ok (true, w'))
    × (w'.output ≡ codes "a.txtb.txt")
unfolding Secure.write
run_exec-prints_example =
    run_exec-prints host plain (λ w. w.output) 3 established (codes "ls") connected
      (codes "a.txt" ∷ codes "b.txt" ∷ []) world-IsOutput (λ p sess w. refl) refl gives
      (omega arith)
