-- ===== src/Secure/Examples.antt =====
-- A Noise library without secrecy, on which a key is sent in the clear, and a connection that keeps
-- what it sends: the theorems on the handshake and on the agent's list have instances.
use netso.Common.{
  All, map, ℕ, ◌≡◌, ◌↔◌, ◌⊎◌, refl, Bool, true, false, none, some, List, [], ◌∷◌, ◌++◌, arith, inl,
  inr,
}
use netso.Common.Bytes.{Bytes, codes, str_eq}
use netso.Common.Result.{Result, ok, err}
use netso.Secure.{
  Error, unauthorized, library, Scanned, Config, MsgConn, Noise, Session, handshake, respond, admit,
  session_of, authorized, authorized_in, load_authorized_keys,
}
use netso.Secure.Admission.{IsListed, IsAdmitted, IsObserved, handshake-admits, handshake-refuses}
use netso.Secure.KeyFile.{Line, IsBlank, IsLine, render, keys_in, load_authorized_keys-render}
use netso.Agent.{allowlist, keys_of, allowlist_iff}

pub record Wire : Type 0 where
  pub received : List Bytes
  pub sent : List Bytes
  pub closed : Bool

abbrev wire : MsgConn Wire
wire = record {
  write_msg = λ m s. (record s { sent = s.sent ++ m ∷ [] }, none);
  read_msg = λ s. elim s.received [
    | [] ↦ (s, err (codes "closed"))
    | m ∷ rest ↦ (record s { received = rest }, ok m)
  ];
  close = λ s. record s { closed = true };
}

-- The state is the peer's key, and the ciphers are numbered.
abbrev plain : Noise
plain = record {
  State = Bytes;
  Cipher = ℕ;
  new = λ cfg. ok cfg.peer_static;
  write_message = λ hs. ok (hs, codes "hello", some 0, some 1);
  read_message = λ hs m. ok (m, none, none);
  peer_static = λ hs. hs;
  encrypt = λ n p. ok (ℕ.suc n, p);
  decrypt = λ n p. ok (ℕ.suc n, p);
}

abbrev alice : Bytes
alice = codes "alice"

abbrev responder : Config
responder = record {
  static_key = record { private = codes "private"; public = codes "public" };
  initiator = false;
  peer_static = [];
  authorized = alice ∷ [];
}

abbrev arriving : Bytes → Wire
arriving peer = record { received = peer ∷ []; sent = []; closed = false }

abbrev established : Session ℕ
established = record { send = 1; recv = 0; peer_static = alice }

admitted : (handshake wire plain responder (arriving alice)).1 ≡ ok established
unfolding handshake respond admit session_of authorized authorized_in str_eq
admitted = refl

handshake-admits_example : IsAdmitted alice (alice ∷ [])
handshake-admits_example =
    handshake-admits wire plain responder (arriving alice) established refl
      (λ hs done e. ground arith) admitted

refused :
    (handshake wire plain responder (arriving (codes "mallory"))).1
    ≡ err (unauthorized (codes "mallory"))
unfolding handshake respond admit session_of authorized authorized_in str_eq
refused = refl

List-cases : (l : List Bytes) → (l ≡ []) ⊎ ((x : Bytes) × (xs : List Bytes) × (l ≡ x ∷ xs))
List-cases [] = inl refl
List-cases (x ∷ xs) = inr (x, xs, refl)

reads_send : (s : Wire) → (wire.read_msg s).0.sent ≡ s.sent
reads_send s = elim (List-cases s.received) [
  | inl none_left ↦ rw none_left refl
  | inr (m, rest, some_left) ↦ rw some_left refl
]

observed : IsObserved wire plain responder (λ s. s.sent) (λ s. s.closed)
observed = record { read_sends = reads_send; close_sends = λ s. refl; close_closes = λ s. refl }

handshake-refuses_example :
    (¬ IsAdmitted (codes "mallory") (alice ∷ []))
    × ((handshake wire plain responder (arriving (codes "mallory"))).0.sent ≡ [])
    × ((handshake wire plain responder (arriving (codes "mallory"))).0.closed ≡ true)
handshake-refuses_example =
    handshake-refuses wire plain responder (λ s. s.sent) (λ s. s.closed)
      (arriving (codes "mallory")) (codes "mallory") refl observed refused

abbrev no_clients : List Bytes
no_clients = []

abbrev clients : Result Error Scanned
clients = ok (record { lines = codes "# clients" ∷ codes "alice laptop" ∷ []; failure = none })

allowlist_iff_example :
    let keys = keys_of (load_authorized_keys clients) in
    (authorized alice (allowlist (codes "clients") clients no_clients) ≡ true)
    ↔ (((no_clients ≡ []) × (keys ≡ [])) ⊎ (IsListed alice no_clients ⊎ IsListed alice keys))
allowlist_iff_example = allowlist_iff (codes "clients") clients no_clients alice (λ e. ground arith)

-- A file that cannot be read lets everyone in, when no static client is set.
test_open :
    authorized (codes "mallory") (allowlist (codes "clients") (err (library (codes "open"))) [])
    ≡ true
unfolding authorized allowlist load_authorized_keys str_eq
test_open = refl

abbrev file : List (Bytes × Line)
file =
    ([], Line.comment (codes " clients"))
    ∷ (codes "  ", Line.key (1 ∷ 2 ∷ 3 ∷ []) (codes " laptop "))
    ∷ ([], Line.blank)
    ∷ ([], Line.key (4 ∷ []) [])
    ∷ []

file-IsLine : All (λ l. IsBlank l.0 × IsLine l.1) file
file-IsLine = (
  (tt, tt),
  (
    ((refl, (refl, tt)), ((λ e. ground arith), omega arith, refl)),
    ((tt, tt), ((tt, ((λ e. ground arith), omega arith, refl)), tt)),
  ),
)

load_authorized_keys-render_example :
    load_authorized_keys (ok (record { lines = map render file; failure = none }))
    ≡ ok (keys_in file)
load_authorized_keys-render_example = load_authorized_keys-render file file-IsLine
